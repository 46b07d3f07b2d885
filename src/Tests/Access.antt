-- ===== src/Tests/Access.antt =====
-- Callers of the registry at concrete inputs.
use signalyard.Common.{
  ◌≡◌, refl, ap, String_eq, ◌==◌, true, false, none, some, cut_prefix, trim_space, find,
}
use signalyard.Platform.Exec.{Result, Error, ok, serve, write_error, ◌>>=◌}
use signalyard.Platform.Database.{empty}
use signalyard.Platform.World.{World, start, query_row_at, time_now}
use signalyard.Platform.Auth.{
  Crypto, Request, Identity, user, extract_token, resolve, parse_with_claims,
}
use signalyard.Registry.Access.{dispatch-read, dispatch-forbidden}
use signalyard.Registry.Router.{dispatch, opened, admin, list_proposals, delete_schema}
use signalyard.Tests.Setup.{test_env, test_crypto, server, admin_request, with_proposal}

dispatch-read_example :
    (serve
      (dispatch server admin_request (opened (list_proposals "pending")))
      (with_proposal "pending")).1.db
    ≡ (with_proposal "pending").db
dispatch-read_example =
    dispatch-read server admin_request (list_proposals "pending") (with_proposal "pending") tt

-- Every token is the session of a viewer.
abbrev viewer_crypto : Crypto
viewer_crypto = record test_crypto {
  jwt_is_hmac = λ token. true;
  jwt_verify = λ secret token now.
      some (record {
        sub = some "id";
        email = some "v@example.org";
        role = some "viewer";
        kind = none;
      });
}

abbrev viewer : Identity
viewer = record { kind = user; agent_id = 0; user_id = 7; email = "v@example.org"; role = "viewer" }

abbrev viewer_request : Request
viewer_request = record { authorization = "Bearer session"; token_header = "" }

abbrev resolved : Result Error Identity × World
resolved = resolve ⦃crypto = viewer_crypto⦄ server.auth (extract_token viewer_request) (start empty)

resolved_viewer : resolved.0 ≡ ok viewer
unfolding resolve extract_token cut_prefix trim_space ◌>>=◌ query_row_at find time_now
    parse_with_claims
resolved_viewer = refl

token_present : (extract_token viewer_request == "") ≡ false
unfolding extract_token cut_prefix trim_space
token_present = refl

dispatch-forbidden_example :
    serve
      (dispatch ⦃crypto = viewer_crypto⦄ server viewer_request (admin (delete_schema "auth")))
      (start empty)
    ≡ (write_error 403 "forbidden", resolved.1)
dispatch-forbidden_example =
    dispatch-forbidden ⦃crypto = viewer_crypto⦄ server viewer_request (delete_schema "auth")
      (start empty) resolved.1 viewer token_present (ap (λ r. (r, resolved.1)) resolved_viewer) refl
      refl
