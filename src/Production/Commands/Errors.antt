-- ===== src/Production/Commands/Errors.antt =====
-- What a production command raises.
use uv_studio.Projects.Errors.{ValidationError}
use uv_studio.Projects.Identity.{IdentityError}
use uv_studio.Projects.Timeline.Errors.{TimelineError}
use uv_studio.Projects.Transactions.Model.{TransactionError}
use uv_studio.Production.State.{StateError}
use uv_studio.Production.Semantics.Values.{SemanticError}

-- The errors of the parts, and a constructor for each message of the commands; `no_root` is the
-- IndexError of `PurePosixPath(path).parts[0]`.
pub data ProductionError : Type 0 where
  unloadable : ValidationError → ProductionError
  not_modern : IdentityError → ProductionError
  unreadable : StateError → ProductionError
  semantic : SemanticError → ProductionError
  scene_exists shot_exists take_exists : ProductionError
  bad_reference_id : ValidationError → ProductionError
  unregistered not_visual no_root root_not_accepted : ProductionError
  unresolved_reference : ValidationError → ProductionError
  irregular_reference : ProductionError
  already_accepted : ProductionError
  source_start_not_int duration_not_int negative_source_start no_duration : ProductionError
  image_offset missing_duration past_source : ProductionError
  bad_new_id : ValidationError → ProductionError
  bad_bindings bound_already vanished : ProductionError
  timeline : TimelineError → ProductionError
  not_video : ProductionError
  uncommitted : TransactionError → ProductionError
