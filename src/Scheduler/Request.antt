-- ===== src/Scheduler/Request.antt =====
-- crates/scheduler/src/lib.rs: `validate_request`.
use ferrum_atlas.Prelude.{
  ℕ, Result, ok, ensure, bind, ok_or, leb, all, length, not, ◌&&◌, ◌||◌, ◌==◌, nat_eq, Option, none,
  some, Bool,
}
use ferrum_atlas.Prelude.Text.{Text, text_eq, codes, is_ascii_alphanumeric}
use ferrum_atlas.Model.{BuildContext, JobRequest}
use ferrum_atlas.Scheduler.Config.{
  Error, invalid_profile, serialization, request_too_large, context_mismatch,
}

abbrev pub is_profile_byte : ℕ → Bool
is_profile_byte c = is_ascii_alphanumeric c || c == b'_' || c == b'-'

unfoldable pub is_profile : Text → Bool
is_profile p = not (p == codes "") && leb (length p) 64 && all is_profile_byte p

abbrev pub check_context : Option BuildContext → Text → Result Error (Unit {0})
check_context none profile = ok tt
check_context (some context) profile =
    ensure (context.trust == codes "read_only" && context.name == profile) context_mismatch

-- `request_bytes` is the length of `serde_json::to_vec(request)`, or `none` if that fails.
unfoldable pub validate_request : (JobRequest → Option ℕ) → JobRequest → Result Error (Unit {0})
unfolding is_profile
validate_request request_bytes request =
    bind (ensure (is_profile request.profile) invalid_profile) λ _.
      bind (ok_or (request_bytes request) serialization) λ size.
        bind (ensure (leb size 16384) request_too_large)
          λ _. check_context request.context request.profile
