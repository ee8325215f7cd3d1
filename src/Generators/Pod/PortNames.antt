-- ===== src/Generators/Pod/PortNames.antt =====
-- Names of ports and of their targets (internal/controller/generators).
use cashu_operator.Common.Int.{ℤ}
use cashu_operator.Generators.Pod.Mounts.{
  In, AllIn, In-after, In-append, AllIn-append, none_left, also,
}
use cashu_operator.Generators.Manifest.{
  ContainerPort, Container, TargetPort, ServicePort, by_name, by_number,
}
use cashu_operator.Generators.Names.{for_each}
use cashu_operator.Common.{List, Option, String, ◌∷◌, [], ◌++◌, ◌≡◌, ap, some, ◌∙◌, sym, none, refl}
use mathlib.Core.List.{append_assoc}

unfoldable pub container_port_names : List ContainerPort → List String
container_port_names [] = []
container_port_names (p ∷ l) = p.name ∷ container_port_names l

-- The names of the ports of some containers
unfoldable pub port_names : List Container → List String
port_names [] = []
port_names (c ∷ l) = container_port_names c.ports ++ port_names l

abbrev target_names : Option TargetPort → List String
target_names none = []
target_names (some (by_name n)) = n ∷ []
target_names (some (by_number n)) = []

-- The targets that are names
unfoldable pub named_targets : List ServicePort → List String
named_targets [] = []
named_targets (p ∷ l) = target_names p.target ++ named_targets l

named_targets-append :
    (a b : List ServicePort) → named_targets (a ++ b) ≡ named_targets a ++ named_targets b
unfolding named_targets
named_targets-append [] b = refl
named_targets-append (p ∷ a) b =
    ap (λ l. target_names p.target ++ l) (named_targets-append a b)
    ∙ sym (append_assoc (target_names p.target) (named_targets a) (named_targets b))

port_names-append : (a b : List Container) → port_names (a ++ b) ≡ port_names a ++ port_names b
unfolding port_names
port_names-append [] b = refl
port_names-append (c ∷ a) b =
    ap (λ l. container_port_names c.ports ++ l) (port_names-append a b)
    ∙ sym (append_assoc (container_port_names c.ports) (port_names a) (port_names b))

-- A container of the list has a port of the name.
pub record IsServed (x : String) (l : List Container) : Type 0 where
  pub is_in : In x (port_names l)

pub Served-right :
    {x : String} (a : List Container) {b : List Container} → IsServed x b → IsServed x (a ++ b)
Served-right a {b} p = record {
  is_in = rw (port_names-append a b) (In-after (port_names a) p.is_in);
}

pub Served-left :
    {x : String} {a : List Container} (b : List Container) → IsServed x a → IsServed x (a ++ b)
Served-left {a} b p = record {
  is_in = rw (port_names-append a b) (In-append (port_names b) p.is_in);
}

pub Served-of {ℓ} :
    {A : Type ℓ} (o : Option A) (f : A → List Container) {a : A} {x : String}
    → o ≡ some a
    → IsServed x (f a)
    → IsServed x (for_each o f)
unfolding for_each
Served-of o f e p = rw (e, for_each) p

-- All named targets have a port.
pub record Reached (l : List Container) (ports : List ServicePort) : Type 0 where
  pub reached : AllIn (port_names l) (named_targets ports)

pub Reached-append :
    {l : List Container} {a b : List ServicePort} → Reached l a → Reached l b → Reached l (a ++ b)
Reached-append {a} {b} p q = record {
  reached = rw (named_targets-append a b) (AllIn-append p.reached q.reached);
}

pub Reached-for_each {ℓ} :
    {A : Type ℓ} {l : List Container} (o : Option A) {f : A → List ServicePort}
    → ((a : A) → o ≡ some a → Reached l (f a))
    → Reached l (for_each o f)
unfolding for_each named_targets
Reached-for_each none h = record { reached = none_left }
Reached-for_each (some a) h = h a refl

pub Reached-cons :
    {l : List Container} {ports : List ServicePort} (name target : String) (port : ℤ)
    → IsServed target l
    → Reached l ports
    → Reached l (record { name = name; port = port; target = some (by_name target) } ∷ ports)
unfolding named_targets
Reached-cons name target port p q = record { reached = also p.is_in q.reached }

pub Served-here :
    (x : String) (c : Container) (l : List Container)
    → In x (container_port_names c.ports)
    → IsServed x (c ∷ l)
unfolding port_names
Served-here x c l i = record { is_in = In-append (port_names l) i }
