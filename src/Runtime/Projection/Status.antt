-- ===== src/Runtime/Projection/Status.antt =====
-- The names of the terminal states.
use hermes_rs.Prelude.{◌≡◌, refl, ok}
use hermes_rs.Domain.Effect.{
  ToolResultStatus, succeeded, failed, cancelled, rejected, outcome_unknown, observed,
}
use hermes_rs.Runtime.Projection.{status_name, parse_status}

pub parse_status-status_name :
    (status : ToolResultStatus) → parse_status (status_name status) ≡ ok status
unfolding parse_status status_name
parse_status-status_name succeeded = refl
parse_status-status_name failed = refl
parse_status-status_name cancelled = refl
parse_status-status_name rejected = refl
parse_status-status_name outcome_unknown = refl
parse_status-status_name observed = refl
