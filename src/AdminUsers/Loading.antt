-- ===== src/AdminUsers/Loading.antt =====
-- `loadRows` of frontend/app/admin/(protected)/users/AdminUsersManager.tsx: each request has a number, and
-- an answer to another request than the latest is dropped.
use rank_verse.Base.{
  ℕ, ◌+◌, ◌==◌, ==_iff, Bool, true, false, String, Option, none, some, List, [], ◌∷◌, if◌then◌else◌,
  ◌≡◌, refl, Bool-cases, inl, inr,
}

-- A page of the table: the ids of its users, and how many the filters match.
pub record RowsPage : Type 0 where
  pub ids : List String
  pub total : ℕ

pub record Rows : Type 0 where
  pub ids : List String
  pub total : ℕ
  pub is_loading : Bool
  pub has_error : Bool
  pub req_id : ℕ

abbrev pub mounted : Rows
mounted = record { ids = []; total = 0; is_loading = true; has_error = false; req_id = 0 }

-- `loadRows` up to its request, which has the new number.
unfoldable pub load_rows : Rows → Rows
load_rows s = record s { req_id = s.req_id + 1; is_loading = true }

abbrev pub take_rows : Option RowsPage → Rows → Rows
take_rows none s = record s { has_error = true; is_loading = false }
take_rows (some page) s = record s {
  ids = page.ids;
  total = page.total;
  has_error = false;
  is_loading = false;
}

-- The answer to the request with a number, none where it failed.
unfoldable pub rows_answered : ℕ → Option RowsPage → Rows → Rows
rows_answered id reply s = if id == s.req_id then take_rows reply s else s

pub data Event : Type 0 where
  read : Event
  arrive : ℕ → Event

-- `replies` is what the server answers to each request, whenever the answer arrives.
module _ (replies : ℕ → Option RowsPage) where
  unfoldable pub on : Event → Rows → Rows
  unfolding load_rows rows_answered
  on read s = load_rows s
  on (arrive id) s = rows_answered id (replies id) s

  unfoldable pub run : List Event → Rows → Rows
  unfolding on
  run [] s = s
  run (e ∷ es) s = run es (on e s)

-- Once nothing is loading, the table shows this answer.
abbrev pub Shows : Bool → Option RowsPage → Rows → Type 0
Shows true reply s = Unit
Shows false none s = s.has_error ≡ true
Shows false (some page) s = (s.ids ≡ page.ids) × (s.total ≡ page.total) × (s.has_error ≡ false)

module _ (replies : ℕ → Option RowsPage) where
  taken-Shows :
      (reply : Option RowsPage) (s : Rows)
      → replies s.req_id ≡ reply
      → Shows
          (take_rows reply s).is_loading
          (replies (take_rows reply s).req_id)
          (take_rows reply s)
  taken-Shows none s e = rw e refl
  taken-Shows (some page) s e = rw e (refl, refl, refl)

  arrived-Shows :
      (id : ℕ) (s : Rows)
      → Shows s.is_loading (replies s.req_id) s
      → Shows
          (on replies (arrive id) s).is_loading
          (replies (on replies (arrive id) s).req_id)
          (on replies (arrive id) s)
  unfolding on rows_answered
  arrived-Shows id s h = elim (Bool-cases (id == s.req_id)) [
    | inl e ↦
        let same = (==_iff id s.req_id).0 e in rw (e, same) (taken-Shows (replies s.req_id) s refl)
    | inr e ↦ rw e h
  ]

  run-keeps :
      (es : List Event) (s : Rows)
      → Shows s.is_loading (replies s.req_id) s
      → Shows (run replies es s).is_loading (replies (run replies es s).req_id) (run replies es s)
  unfolding run on load_rows
  run-keeps [] s h = h
  run-keeps (read ∷ es) s h = run-keeps es (load_rows s) tt
  run-keeps (arrive id ∷ es) s h = run-keeps es (on replies (arrive id) s) (arrived-Shows id s h)

  -- In whatever order answers arrive: once nothing is loading, the table shows the answer to the latest
  -- request, or says that it failed.
  pub run-Shows :
      (es : List Event)
      → Shows
          (run replies es mounted).is_loading
          (replies (run replies es mounted).req_id)
          (run replies es mounted)
  run-Shows es = run-keeps es mounted tt
