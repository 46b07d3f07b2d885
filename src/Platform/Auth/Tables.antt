-- ===== src/Platform/Auth/Tables.antt =====
-- Resolving a token changes no table.
use signalyard.Common.{String, Option, none, some, List}
use signalyard.Platform.Exec.{Error, not_found, conflict, failed, Result, ok, err, Handler}
use signalyard.Platform.Database.{Db, KeyRow}
use signalyard.Platform.World.{Env, World}
use signalyard.Platform.Keeps.{Preorder, Keeps, Keeps-if, Keeps-raise}
use signalyard.Platform.KeepsDb.{tables, tables_rules}
use signalyard.Platform.Auth.{
  Claims, Crypto, TokenAuth, Identity, Request, key_lookup, session_or_fail, resolve_session,
  after_lookup, resolve, middleware, require_role,
}

module _ ⦃env : Env⦄ ⦃crypto : Crypto⦄ {R : Db → Db → Type 0} (o : Preorder R) where
  Keeps-session : (c : Option Claims) → Keeps tables R (session_or_fail c)
  unfolding session_or_fail
  Keeps-session none = search (tables_rules, o)
  Keeps-session (some c) = search (tables_rules, o)

  Keeps-resolve_session :
      (a : TokenAuth) (token : String) → Keeps tables R (resolve_session a token)
  unfolding resolve_session
  Keeps-resolve_session a token = search (tables_rules, o, Keeps-session)

  Keeps-after_lookup :
      (a : TokenAuth) (token : String) (r : Result Error KeyRow)
      → Keeps tables R (after_lookup a token r)
  unfolding after_lookup
  Keeps-after_lookup a token (ok k) = search (tables_rules, o)
  Keeps-after_lookup a token (err not_found) = Keeps-resolve_session a token
  Keeps-after_lookup a token (err conflict) = search (tables_rules, o)
  Keeps-after_lookup a token (err failed) = search (tables_rules, o)

  pub Keeps-resolve : (a : TokenAuth) (token : String) → Keeps tables R (resolve a token)
  unfolding resolve key_lookup
  Keeps-resolve a token = search (tables_rules, o, Keeps-after_lookup)

  module _ {B : Type 0} where
    pub Keeps-middleware :
        (a : TokenAuth) (r : Request) (next : Identity → Handler World B)
        → ((id : Identity) → Keeps tables R (next id))
        → Keeps tables R (middleware a r next)
    unfolding middleware
    Keeps-middleware a r next k = search (tables_rules, o, Keeps-resolve, k)

    pub Keeps-require_role :
        (roles : List String) (next : Identity → Handler World B) (id : Identity)
        → Keeps tables R (next id)
        → Keeps tables R (require_role roles next id)
    unfolding require_role
    Keeps-require_role roles next id k = Keeps-if o _ _ _ k (Keeps-raise o _)
