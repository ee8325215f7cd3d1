-- ===== src/Operator/Actions.antt =====
-- What cmd/main.go asks of controller-runtime, in order, and how the process may end.
use cashu_operator.Common.{Option, String, ℕ, List, ◌∷◌, some, none}
use cashu_operator.Operator.Options.{ManagerOptions, Arguments}
use cashu_operator.Controller.Env.{Kind, Error, wrapped}

-- The builder of `SetupWithManager`: the kind of `For`, the kinds of `Owns`, and `Named`.
pub record Watch : Type 0 where
  pub for_kind : Kind
  pub owned : List Kind
  pub named : String

-- `get_config` is `ctrl.GetConfigOrDie`, `new_manager` is `ctrl.NewManager`, and the two
-- completions are `Complete` of the builders of a controller and of a webhook.
pub data Action : Type 0 where
  get_config : Action
  new_manager : ManagerOptions → Action
  complete_controller : Watch → Action
  complete_webhook : Kind → Action
  add_healthz_check : String → Action
  add_readyz_check : String → Action
  start : Action

-- What `flag.Parse` makes of the command line: the flags that it sets, a `-help` that it answers
-- with the usage, or one that it does not accept.
pub data CommandLine : Type 0 where
  parsed : Arguments → CommandLine
  help_asked : CommandLine
  rejected : CommandLine

-- What the process meets: `arguments` is the command line as `flag.Parse` takes it,
-- `enable_webhooks` is `os.Getenv("ENABLE_WEBHOOKS")`, and `answer` is the error of an action after
-- those before it, the latest first.
pub record Host : Type 0 where
  pub arguments : CommandLine
  pub enable_webhooks : String
  pub answer : List Action → Action → Option Error

-- How a setup function stops: with an error that it returns, or with the process.
pub data Halt : Type 0 where
  returned : Error → Halt
  died : Halt

-- How the process ends: `flag.Parse` and `ctrl.GetConfigOrDie` exit by themselves, and `problem` is
-- an error that `main` logs with its text before it exits.
pub data Ending : Type 0 where
  helped : Ending
  bad_usage : Ending
  no_cluster_config : Ending
  problem : String → Error → Ending
  stopped : Ending

unfoldable pub exit_status : Ending → ℕ
exit_status helped = 0
exit_status bad_usage = 2
exit_status no_cluster_config = 1
exit_status (problem text e) = 1
exit_status stopped = 0

pub data Outcome (E A : Type 0) : Type 0 where
  value : A → Outcome E A
  halted : E → Outcome E A

abbrev pub Process : Type 0 → Type 0 → Type 0
Process E A = List Action → Outcome E A × List Action

infixl 5 ◌>>=◌ ◌>>◌
abbrev pub go_on :
    {E A B : Type 0} → Outcome E A × List Action → (A → Process E B) → Outcome E B × List Action
go_on (value a, t) f = f a t
go_on (halted e, t) f = (halted e, t)

unfoldable pub ◌>>=◌ : {E A B : Type 0} → Process E A → (A → Process E B) → Process E B
◌>>=◌ m f t = go_on (m t) f

unfoldable pub ◌>>◌ : {E B : Type 0} → Process E (Unit {0}) → Process E B → Process E B
m >> k = m >>= λ _. k

unfoldable pub nothing : {E : Type 0} → Process E (Unit {0})
nothing t = (value tt, t)

abbrev returned_of : Option Error → Outcome Halt (Unit {0})
returned_of none = value tt
returned_of (some e) = halted (returned e)

abbrev died_of : Option Error → Outcome Halt (Unit {0})
died_of none = value tt
died_of (some e) = halted died

abbrev with_context : String → Halt → Halt
with_context text (returned e) = returned (wrapped text e)
with_context text died = died

abbrev in_context :
    String → Outcome Halt (Unit {0}) × List Action → Outcome Halt (Unit {0}) × List Action
in_context text (value u, t) = (value u, t)
in_context text (halted h, t) = (halted (with_context text h), t)

-- `if err != nil { return fmt.Errorf("text: %w", err) }`
unfoldable pub context : String → Process Halt (Unit {0}) → Process Halt (Unit {0})
context text m t = in_context text (m t)

abbrev ending_of : String → Halt → Ending
ending_of text (returned e) = problem text e
ending_of text died = no_cluster_config

abbrev exiting :
    String → Outcome Halt (Unit {0}) × List Action → Outcome Ending (Unit {0}) × List Action
exiting text (value u, t) = (value u, t)
exiting text (halted h, t) = (halted (ending_of text h), t)

-- `if err != nil { setupLog.Error(err, "text"); os.Exit(1) }`
unfoldable pub or_exit : String → Process Halt (Unit {0}) → Process Ending (Unit {0})
or_exit text m t = exiting text (m t)

module _ (host : Host) where
  unfoldable pub perform : Action → Process Halt (Unit {0})
  perform c t = (returned_of (host.answer t c), c ∷ t)

  -- An action that exits by itself.
  unfoldable pub perform_or_die : Action → Process Halt (Unit {0})
  perform_or_die c t = (died_of (host.answer t c), c ∷ t)
