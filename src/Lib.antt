-- ===== src/Lib.antt =====
-- A model of the Cashu mint operator: the CashuMint resource, its admission webhook and the
-- reconciler that brings a cluster to what the resource asks for.
--
-- Files, and the code that they are about:
-- - Api.antt and Api/: the types, constants and functions of api/v1alpha1/cashumint_types.go. A
--   pointer is an Option, a map an association list, a Go int a signed integer, a float64 the bits
--   that encode it. Api/ActiveBackend.antt is about what ActiveBackend returns.
-- - Defaulting.antt and Defaulting/: Default and its helpers in api/v1alpha1/cashumint_webhook.go, as
--   functions from the resource to the resource that Default leaves behind. Idempotence.antt is about
--   Default after Default; Validity.antt, PaymentValidity.antt and OrchardValidity.antt are about
--   validation after it.
-- - Validation.antt and Validation/: ValidateCreate, ValidateUpdate, ValidateDelete and their helpers
--   in the same file. An error is its text, and nil is none. Valid.antt describes what the webhook
--   asks of a mint with no mention of its checks, which is less than the documentation of the fields
--   asks; Laws.antt, OrchardLaws.antt and Admission.antt compare the
--   two.
-- - Controller.antt and Controller/: internal/controller/cashumint_controller.go and
--   internal/controller/helpers.go. Monad.antt has the state of a pass, which is the exchanges with
--   the API server, the mint behind the shared pointer and the recorded events, and the errors;
--   Status.antt, StatusUpdate.antt, Secrets.antt, Configuration.antt, Resources.antt and
--   Reconcile.antt have the steps, one function for each method. Guard.antt and the files named
--   after it follow what a pass writes; Scheduling.antt is about the next pass, and Works.antt,
--   Healthy.antt, the files named after them, and Progress.antt about passes in a cluster where the
--   calls succeed; StatusLaws.antt, ReadinessLaws.antt and StatusUpdateLaws.antt
--   are about the status.
-- - Generators.antt and Generators/: internal/controller/generators, one file for each of its files
--   or, for deployment.go, orchard.go, configmap.go and mnemonic.go, with a folder beside it.
--   Manifest.antt has the fields of Kubernetes objects that the code sets; config.toml is a list of
--   tables with optional fields, and its text is printed from them (ConfigMap/Toml.antt); a list that
--   the code prints without escapes is kept as its printed text. ConfigMap/Outline.antt reads the
--   names of tables and keys back out of the lines of a text, and TextOutline.antt and
--   TextWellFormed.antt are about what it reads of a config.toml.
--   X509.antt and ManagementRpc/ have the certificates of management_rpc.go.
--   Interface.antt makes the generators that the reconciler takes of them; Contract.antt,
--   Success.antt, Presence.antt, Defaults.antt and Pod/ compare manifests with each other, with the
--   reconciler and with the webhook.
-- - Operator.antt and Operator/: cmd/main.go with SetupWithManager of the reconciler and
--   SetupWebhookWithManager of the webhook. Options.antt has the flags and the options of the
--   servers, Actions.antt what the process asks of controller-runtime, Main.antt the setup functions
--   and main; Plan.antt and Protocols.antt are about what main does, and Watching.antt about the
--   kinds that the controller watches.
-- - Common.antt and Common/: names of the libraries, tests, and lemmas that the parts share.
-- - Tests.antt and Tests/: concrete mints and a cluster.
--
-- The webhook fills in and checks a mint before the API server stores it; the reconciler reads the
-- stored mint, applies the resources that the generators make of it, and writes its status. The
-- process registers both with a manager and starts it.
--
-- Parameters: the answers of the API server, which are any functions of all exchanges before
-- (Server of Controller/Env.antt); meta.SetStatusCondition, the finalizer helpers of controllerutil
-- and SHA-256 (Library); resource.Quantity.Cmp; SetControllerReference, rand.Read, the printing of
-- %q and %f, strings.TrimSpace, base64 (Machinery of Generators/Machinery.antt);
-- crypto/rsa, crypto/x509, rand.Int and encoding/pem (Crypto of Generators/X509.antt); the command
-- line, the environment and the answers of controller-runtime to main (Host of
-- Operator/Actions.antt); the encoding of manifests (Encoding of
-- Generators/Interface.antt). The reconciler takes any generators (Generators of Controller/Env.antt),
-- of which make_generators is one.
--
-- Every function here is total: the loops are those over the limits of resources, the digits of a
-- number, with fuel above the number, of which a round leaves a tenth (Common/Decimal.antt and
-- Common/Reading.antt), and the 24 words of a phrase, which counts down. The word list is split out of texts of 128
-- words each. A quantity is its text: resource.MustParse, which panics on a malformed one, is not
-- modelled, and the maps of Go are lists in the order in which the code writes them.
--
-- Not modelled: logs, the texts of events, times in the status, the registration of types in a
-- scheme, and the generated deep copies: a copy of an immutable value is the value.
pub mod Common
pub mod Api
pub mod Defaulting
pub mod Validation
pub mod Controller
pub mod Generators
pub mod Operator
mod Tests
