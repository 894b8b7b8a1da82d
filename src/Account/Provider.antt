-- ===== src/Account/Provider.antt =====
-- frontend/lib/auth-context.tsx: the session of a tab, driven by events. A call that waits for the
-- server is a number of calls in flight, and its answer an event; `none` is a rejected promise. What
-- frontend/lib/api.ts does behind the scenes, with the listeners, is `refreshed` and `ended`.
pub mod Laws
use rank_verse.Base.{
  ℕ, zero, suc, ◌≡◌, refl, String, Bool, true, false, not, ◌&&◌, Option, none, some, List, [], ◌∷◌,
  arith, if◌then◌else◌, str_eq,
}

pub record Tokens : Type 0 where
  pub access_token : String
  pub refresh_token : String

pub record User : Type 0 where
  pub id : String
  pub email : String
  pub username : String
  pub email_verified : Bool
  pub display_name : Option String
  pub bio : Option String
  pub avatar_key : Option String

-- `stored_*` is localStorage, `ref` is `tokenRef.current`; below `loading`, the calls in flight.
pub record Session : Type 0 where
  pub stored_access : Option String
  pub stored_refresh : Option String
  pub token : Option String
  pub ref : Option String
  pub user : Option User
  pub loading : Bool
  pub checking : Bool
  pub registering : ℕ
  pub logging_in : ℕ
  pub reading : ℕ
  pub refreshing : ℕ

-- The first render, with what the last visit left in the store.
abbrev pub opened : Option String → Option String → Session
opened access refresh = record {
  stored_access = access;
  stored_refresh = refresh;
  token = none;
  ref = none;
  user = none;
  loading = true;
  checking = false;
  registering = 0;
  logging_in = 0;
  reading = 0;
  refreshing = 0;
}

-- The answers of `login` and `loginGoogle` stand for both.
pub data Event : Type 0 where
  checked : Option User → Event
  register : Event
  registered : Bool → Event
  login : Event
  logged_in : Option Tokens → Event
  read : Option User → Event
  refresh_user : Event
  reread : Option User → Event
  adopt : Tokens → Event
  refreshed : String → Event
  ended logout : Event

-- `setTokenEverywhere`
abbrev pub set_token_everywhere : Option String → Session → Session
set_token_everywhere next s = record s { token = next; ref = next }

abbrev pub adopt_tokens : Tokens → Session → Session
adopt_tokens t s =
    set_token_everywhere (some t.access_token)
      (record s { stored_access = some t.access_token; stored_refresh = some t.refresh_token })

abbrev forget : Session → Session
forget s = set_token_everywhere none (record s { stored_access = none; stored_refresh = none })

abbrev pub check_stored : Option String → Session → Session
check_stored none s = record s { loading = false }
check_stored (some stored) s =
    if str_eq stored ""
    then record s { loading = false }
    else set_token_everywhere (some stored) (record s { checking = true })

-- The effects of the first render, before any other event.
unfoldable pub on_mount : Session → Session
on_mount s = check_stored s.stored_access s

abbrev conclude : Option User → Session → Session
conclude (some user) s = record s { user = some user; checking = false; loading = false }
conclude none s = record (forget s) { checking = false; loading = false }

unfoldable pub on_checked : Option User → Session → Session
on_checked answer s = if s.checking then conclude answer s else s

-- `register` goes on with `login`.
abbrev go_on : Bool → Session → Session
go_on true s = record s { logging_in = suc s.logging_in }
go_on false s = s

abbrev after_register : ℕ → Bool → Session → Session
after_register zero succeeded s = s
after_register (suc n) succeeded s = go_on succeeded (record s { registering = n })

-- `login` and `loginGoogle`: the tokens, then the user.
abbrev enter : Option Tokens → Session → Session
enter none s = s
enter (some t) s = record (adopt_tokens t s) { reading = suc s.reading }

abbrev after_login : ℕ → Option Tokens → Session → Session
after_login zero answer s = s
after_login (suc n) answer s = enter answer (record s { logging_in = n })

abbrev show : Option User → Session → Session
show none s = s
show (some user) s = record s { user = some user }

abbrev after_read : ℕ → Option User → Session → Session
after_read zero answer s = s
after_read (suc n) answer s = show answer (record s { reading = n })

abbrev ask_again : Option String → Session → Session
ask_again none s = s
ask_again (some current) s =
    if str_eq current "" then s else record s { refreshing = suc s.refreshing }

abbrev after_reread : ℕ → Option User → Session → Session
after_reread zero answer s = s
after_reread (suc n) answer s = show answer (record s { refreshing = n })

-- The store is the API's, the rest is the listener's.
abbrev on_access_token_refreshed : String → Session → Session
on_access_token_refreshed new s =
    set_token_everywhere (some new) (record s { stored_access = some new })

abbrev sign_out : Session → Session
sign_out s = record (forget s) { user = none }

unfoldable pub step : Event → Session → Session
unfolding on_checked
step (checked answer) s = on_checked answer s
step register s = record s { registering = suc s.registering }
step (registered succeeded) s = after_register s.registering succeeded s
step login s = record s { logging_in = suc s.logging_in }
step (logged_in answer) s = after_login s.logging_in answer s
step (read answer) s = after_read s.reading answer s
step refresh_user s = ask_again s.ref s
step (reread answer) s = after_reread s.refreshing answer s
step (adopt t) s = adopt_tokens t s
step (refreshed new) s = on_access_token_refreshed new s
step ended s = sign_out s
step logout s = sign_out s

unfoldable pub run : List Event → Session → Session
unfolding step
run [] s = s
run (e ∷ es) s = run es (step e s)
