-- ===== src/Generators/Pod/Mounts.antt =====
-- Every volume that a container of the mint's pod mounts is a volume of the pod
-- (internal/controller/generators/deployment.go and orchard.go).
use cashu_operator.Generators.Manifest.{VolumeMount, Volume}
use cashu_operator.Generators.Names.{for_each, added}
use cashu_operator.Common.{
  false, List, String, ◌∷◌, [], ◌++◌, Option, Bool, ◌≡◌, some, ap, refl, none, true,
}

unfoldable pub mount_names : List VolumeMount → List String
mount_names [] = []
mount_names (v ∷ l) = v.name ∷ mount_names l

unfoldable pub volume_names : List Volume → List String
volume_names [] = []
volume_names (v ∷ l) = v.name ∷ volume_names l

-- A text stands in a list.
pub data In (x : String) : List String → Type 0 where
  here : {l : List String} → In x (x ∷ l)
  there : {y : String} {l : List String} → In x l → In x (y ∷ l)

-- All texts of a list stand in another.
pub data AllIn (l : List String) : List String → Type 0 where
  none_left : AllIn l []
  also : {x : String} {a : List String} → In x l → AllIn l a → AllIn l (x ∷ a)

-- Each mount has a volume of its name.
pub record IsCovered (mounts : List VolumeMount) (volumes : List Volume) : Type 0 where
  pub all_in : AllIn (volume_names volumes) (mount_names mounts)

pub In-append : {x : String} {a : List String} (b : List String) → In x a → In x (a ++ b)
In-append b here = here
In-append b (there i) = there (In-append b i)

pub In-after : {x : String} (a : List String) {b : List String} → In x b → In x (a ++ b)
In-after [] i = i
In-after (y ∷ a) i = there (In-after a i)

AllIn-map :
    {l k : List String} {a : List String} → ((x : String) → In x l → In x k) → AllIn l a → AllIn k a
AllIn-map f none_left = none_left
AllIn-map f (also {x = x} i r) = also (f x i) (AllIn-map f r)

pub AllIn-append : {l a b : List String} → AllIn l a → AllIn l b → AllIn l (a ++ b)
AllIn-append none_left s = s
AllIn-append (also i r) s = also i (AllIn-append r s)

mount_names-append :
    (a b : List VolumeMount) → mount_names (a ++ b) ≡ mount_names a ++ mount_names b
unfolding mount_names
mount_names-append [] b = refl
mount_names-append (v ∷ a) b = ap (λ l. v.name ∷ l) (mount_names-append a b)

volume_names-append : (a b : List Volume) → volume_names (a ++ b) ≡ volume_names a ++ volume_names b
unfolding volume_names
volume_names-append [] b = refl
volume_names-append (v ∷ a) b = ap (λ l. v.name ∷ l) (volume_names-append a b)

pub Covered-nothing : {b : List Volume} → IsCovered [] b
unfolding mount_names
Covered-nothing = record { all_in = none_left }

pub Covered-left :
    {a : List VolumeMount} {b : List Volume} (c : List Volume)
    → IsCovered a b
    → IsCovered a (b ++ c)
Covered-left {a} {b} c p = record {
  all_in = rw (volume_names-append b c) (AllIn-map (λ x i. In-append (volume_names c) i) p.all_in);
}

pub Covered-right :
    {a : List VolumeMount} (b : List Volume) {c : List Volume}
    → IsCovered a c
    → IsCovered a (b ++ c)
Covered-right {a} b {c} p = record {
  all_in = rw (volume_names-append b c) (AllIn-map (λ x i. In-after (volume_names b) i) p.all_in);
}

pub Covered-both :
    {a c : List VolumeMount} {b : List Volume}
    → IsCovered a b
    → IsCovered c b
    → IsCovered (a ++ c) b
Covered-both {a} {c} p q = record {
  all_in = rw (mount_names-append a c) (AllIn-append p.all_in q.all_in);
}

-- Parts are covered by parts.
pub Covered-append :
    {a c : List VolumeMount} {b d : List Volume}
    → IsCovered a b
    → IsCovered c d
    → IsCovered (a ++ c) (b ++ d)
Covered-append {b = b} {d = d} p q = Covered-both (Covered-left d p) (Covered-right b q)

-- The mount and the volume stand under one pointer.
pub Covered-for_each {ℓ} :
    {A : Type ℓ} (o : Option A) {f : A → List VolumeMount} {g : A → List Volume}
    → ((a : A) → IsCovered (f a) (g a))
    → IsCovered (for_each o f) (for_each o g)
unfolding for_each
Covered-for_each none p = Covered-nothing
Covered-for_each (some a) p = p a

pub Covered-added :
    (b : Bool) {a : List VolumeMount} {c : List Volume}
    → IsCovered a c
    → IsCovered (added b a) (added b c)
unfolding added
Covered-added true p = p
Covered-added false p = Covered-nothing

pub Covered-of {ℓ} :
    {A : Type ℓ} (o : Option A) (g : A → List Volume) {a : A} {l : List VolumeMount}
    → o ≡ some a
    → IsCovered l (g a)
    → IsCovered l (for_each o g)
unfolding for_each
Covered-of o g e p = rw (e, for_each) p

pub Covered-if_added :
    (b : Bool) {a : List VolumeMount} {c : List Volume} → IsCovered a c → IsCovered (added b a) c
unfolding added
Covered-if_added true p = p
Covered-if_added false p = Covered-nothing

pub Covered-one : (v : VolumeMount) (w : Volume) → v.name ≡ w.name → IsCovered (v ∷ []) (w ∷ [])
unfolding mount_names volume_names
Covered-one v w e = record { all_in = also (rw e here) none_left }
