-- ===== src/Tests/Repository.antt =====
-- A repository of sessions in memory, for the session store (sessions).
use renku_gateway.Prelude.{
  String, str_eq, ℤ, pos, Dict, lookup, insert, lookup-insert, remove, lookup-remove, Bool-cases,
  Option, none, some, Result, ok, err, other, session_not_found, ◌≡◌, inl, inr, refl, arith, Exec,
}
use renku_gateway.Models.Session.{Session}
use renku_gateway.Prelude.Keeps.{Any, Keeps}
use renku_gateway.Sessions.Keeps.{IsBounded, IsBackend}
use renku_gateway.Sessions.Maker.{SessionMaker, new_session}
use renku_gateway.Sessions.Maker.Kept.{new_session-kept}
use renku_gateway.Sessions.Store.{SessionStore, TokenStoreInterface, default_cookie}
use renku_gateway.Tests.Memory.{access, refresh, id_token}

pub record Kept : Type 0 where
  pub sessions : Dict Session

abbrev pub found_in : Option Session → Result Session
found_in none = err session_not_found
found_in (some s) = ok s

abbrev pub maker : SessionMaker
maker = record { idle_session_ttl_seconds = pos 1; max_session_ttl_seconds = pos 2 }

abbrev pub draw : Exec Kept String
draw w = (ok "s2", w)

abbrev pub tick : Exec Kept ℤ
tick w = (ok (pos 4000000000), w)

abbrev pub tokens : TokenStoreInterface Kept
tokens = record {
  get_fresh_access_token = λ id w. (ok access, w);
  set_access_token = λ t w. (ok tt, w);
  get_refresh_token = λ id w. (ok refresh, w);
  set_refresh_token = λ t w. (ok tt, w);
  get_fresh_id_token = λ id w. (ok id_token, w);
  set_id_token = λ t w. (ok tt, w);
}

abbrev pub store : SessionStore Kept
store = record {
  verify_access_token = λ token w. (err (other "not verified"), w);
  cookie_template = default_cookie;
  cookie_handler = none;
  new_session = new_session draw tick maker;
  session_repo = record {
    get_session = λ id w. (found_in (lookup id w.sessions), w);
    set_session = λ s w. (ok tt, record { sessions = insert s.id s w.sessions });
    remove_session = λ id w. (ok tt, record { sessions = remove id w.sessions });
  };
  token_store = tokens;
  now = λ w. (pos 4000000000, w);
  basic_auth = λ header. none;
}

-- The sessions in memory are bounded.
abbrev pub Stored : Kept → Type 0
Stored w = (id : String) (s : Session) → lookup id w.sessions ≡ some s → IsBounded s

found_in-some : (o : Option Session) (s : Session) → found_in o ≡ ok s → o ≡ some s
found_in-some none s e = absurd (cc e)
found_in-some (some t) s e = let same : t ≡ s = cc e in rw same refl

insert-Stored :
    (s : Session) (w : Kept)
    → IsBounded s
    → Stored w
    → (id : String) (t : Session) → lookup id (insert s.id s w.sessions) ≡ some t
    → IsBounded t
insert-Stored s w bounded stored id t e = elim (Bool-cases (str_eq s.id id)) [
  | inl same ↦
      let written : some s ≡ some t = rw (lookup-insert s.id id s w.sessions, same) at e in
      let is_s : s ≡ t = cc written in rw (← is_s) bounded
  | inr differ ↦ stored id t (rw (lookup-insert s.id id s w.sessions, differ) at e)
]

remove-Stored :
    (k : String) (w : Kept)
    → Stored w
    → (id : String) (t : Session) → lookup id (remove k w.sessions) ≡ some t
    → IsBounded t
remove-Stored k w stored id t e = elim (Bool-cases (str_eq k id)) [
  | inl same ↦
      let gone : none ≡ some t = rw (lookup-remove k id w.sessions, same) at e in absurd (cc gone)
  | inr differ ↦ stored id t (rw (lookup-remove k id w.sessions, differ) at e)
]

pub same_state : {A : Type 0} (m : Exec Kept A) → ((w : Kept) → (m w).1 ≡ w) → Keeps Stored m Any
same_state m same = record { after = λ w k. rw (same w) k; returns = λ w a k e. tt }

pub store-IsBackend : IsBackend store Stored
store-IsBackend = record {
  clock = λ w k. k;
  in_time = λ w. (omega arith, omega arith);
  verifies = λ token. same_state _ (λ w. refl);
  makes =
      new_session-kept maker (omega arith) (omega arith) (omega arith) Stored draw tick
        (same_state draw (λ w. refl))
        (record {
          after = λ w k. k;
          returns = λ w a k e.
              let same : pos 4000000000 ≡ a = cc e in rw (← same) (omega arith, omega arith);
        });
  gets = λ id. record {
    after = λ w k. k;
    returns = λ w s k e. k id s (found_in-some (lookup id w.sessions) s e);
  };
  sets = λ s bounded named. record {
    after = λ w k. insert-Stored s w bounded k;
    returns = λ w a k e. tt;
  };
  removes = λ id. record { after = λ w k. remove-Stored id w k; returns = λ w a k e. tt };
  gets_access = λ id. same_state _ (λ w. refl);
  gets_refresh = λ id. same_state _ (λ w. refl);
  gets_id = λ id. same_state _ (λ w. refl);
  sets_access = λ t. same_state _ (λ w. refl);
  sets_refresh = λ t. same_state _ (λ w. refl);
  sets_id = λ t. same_state _ (λ w. refl);
}
