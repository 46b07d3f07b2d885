-- ===== src/Registry/Access.antt =====
-- Who may do what: the routes of internal/registry/server.go behind TokenAuth.Middleware and RequireRole of
-- internal/platform/auth.go.
use signalyard.Common.{◌≡◌, refl, ◌∙◌, String_eq, false, ◌==◌}
use signalyard.Platform.Exec.{ok, ◌>>=◌, serve, write_error}
use signalyard.Platform.Database.{Db}
use signalyard.Platform.World.{Env, World}
use signalyard.Platform.Auth.{
  Crypto, Request, Identity, is_dev_admin, has_role, extract_token, resolve, middleware,
  require_role,
}
use signalyard.Platform.Auth.Tables.{Keeps-middleware}
use signalyard.Platform.Keeps.{Preorder}
use signalyard.Registry.Handlers.{Server}
use signalyard.Registry.Reads.{IsRead, Keeps-read}
use signalyard.Registry.Router.{
  OpenRoute, AdminRoute, opened, admin, open_route, dispatch, reviewers,
}

equal_tables : Preorder {X = Db} (λ d e. e ≡ d)
equal_tables = record { reflexive = λ d. refl; transitive = λ a b c p q. q ∙ p }

-- A request to one of the routes that read leaves every table as it is.
pub dispatch-read :
    ⦃env : Env⦄ ⦃crypto : Crypto⦄ (s : Server) (r : Request) (route : OpenRoute) (w : World)
    → IsRead route
    → (serve (dispatch s r (opened route)) w).1.db ≡ w.db
unfolding dispatch
dispatch-read s r route w h =
    (Keeps-middleware equal_tables s.auth r (λ id. open_route s route)
        λ id. Keeps-read equal_tables s route h).at
      w

-- A caller whose token resolves to neither the development administrator nor a user with the role admin or
-- approver is refused by every route that changes schemas, decides on proposals or manages agents: the answer
-- is 403, and nothing happens after the token was resolved.
pub dispatch-forbidden :
    ⦃env : Env⦄ ⦃crypto : Crypto⦄ (s : Server) (r : Request) (route : AdminRoute) (w w' : World)
    (id : Identity)
    → (extract_token r == "") ≡ false
    → resolve s.auth (extract_token r) w ≡ (ok id, w')
    → is_dev_admin id.kind ≡ false
    → has_role reviewers id.role ≡ false
    → serve (dispatch s r (admin route)) w ≡ (write_error 403 "forbidden", w')
unfolding dispatch middleware require_role ◌>>=◌
dispatch-forbidden s r route w w' id t h k l = rw (t, h, k, l) refl
