-- ===== src/Prelude.antt =====
-- Names that every module shares: the libraries', passed on, the Boolean tests, the result type
-- that stands for the exceptions of the source, and lists and dictionaries.
mod Failures
mod Lists
mod Tests
mod Dict
pub mod Runs
pub use Tests.*
unfoldable pub use Dict.{find, replace, remove}
pub use Dict.{Entries, find-replace, find-remove, Entries-find, Entries-replace, Entries-remove}
pub use Dict.{length-replace, find-snoc, find-snoc_other, replace-snoc, remove-snoc}
pub use Failures.{
  Result, ok, err, Error, ◌>>=◌, ◌>>◌, guard, bind-ok, ok-bind, then-ok, guard-ok, ok-injective,
}
pub use Failures.{
  lifecycle_state, timestamp_validation, duplicate_task, task_not_found, queue_state,
  scheduler_state, route_binding, clock, clock_invariant, artifact_limit, artifact_write,
  negative_size, value_error, key_error, analysis_assessment, stage4_receiver,
  analyzer_configuration, analyzer_infrastructure, finding_formation, deadline_exceeded,
  analyzer_unreaped, preprocessing_failed,
}
unfoldable pub use Lists.{discard}
pub use Lists.{
  length, length-append, All, All-++, contains, contains-discard, discard_fresh, discard_added,
}
pub use Prim.Native.Nat.{ℕ, zero, suc, ◌+◌, ◌-◌, ◌*◌, ◌/◌, ◌≤◌, ◌<◌}
pub use Prim.Native.String.{String}
pub use mathlib.Core.Path.{◌≡◌, refl, sym, ap, ◌∙◌, subst}
pub use mathlib.Core.Logic.{◌≢◌, ◌⊎◌, inl, inr}
pub use mathlib.Core.Bool.{Bool, true, false, not, ◌&&◌, ◌||◌}
pub use mathlib.Core.Option.{Option, none, some}
pub use mathlib.Core.List.{List, [], ◌∷◌, ◌++◌, map}
pub use native.Mathlib.Omega.{arith}
pub use text.Mathlib.Text.{◌==◌ as str_eq, find?}
pub use text.Mathlib.TextEquality.{eq_iff}
