-- ===== src/Tests/Status.antt =====
-- One instance of each result about the phase, the status and the readiness of a mint in
-- internal/controller that has conditions, and a pass over a deleted mint.
use cashu_operator.Controller.ReadinessLaws.{
  IsReportedReady, update_deployment_readiness-phase, IsUnreported,
}
use cashu_operator.Controller.Secrets.{handle_deletion, delete_postgres_secret}
use cashu_operator.Controller.StatusUpdate.{update_status_of}
use cashu_operator.Controller.Reconcile.{reconcile, reconcile_found}
use cashu_operator.Controller.Status.{update_deployment_readiness, no_requeue}
use cashu_operator.Controller.StatusUpdateLaws.{IsStatusWritten, update_status_of-IsStatusWritten}
use cashu_operator.Common.{◌≡◌, ◌⊎◌, refl}
use cashu_operator.Controller.Monad.{
  ◌>>=◌, ◌>>◌, attempt, get_mint, get_secret, put_mint, the_mint, when, send, event, done, return,
}
use cashu_operator.Controller.Env.{ok}
use cashu_operator.Tests.{deleted_mint, cluster, start}

update_status_of-IsStatusWritten_example :
    IsStatusWritten deleted_mint deleted_mint (update_status_of cluster start).1.trace
update_status_of-IsStatusWritten_example =
    update_status_of-IsStatusWritten cluster start deleted_mint refl

update_deployment_readiness-phase_example :
    IsUnreported cluster start (update_deployment_readiness cluster start).1
    ⊎ IsReportedReady cluster start (update_deployment_readiness cluster start).1
update_deployment_readiness-phase_example = update_deployment_readiness-phase cluster start

-- The pass over the deleted mint ends without an error and asks for no other pass.
reconcile_deleted : (reconcile cluster "cashu" "mint" start).0 ≡ ok no_requeue
unfolding reconcile reconcile_found handle_deletion delete_postgres_secret ◌>>=◌ ◌>>◌ attempt
    get_mint get_secret put_mint the_mint when send event done return
reconcile_deleted = refl
