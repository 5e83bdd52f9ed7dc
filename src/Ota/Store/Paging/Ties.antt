-- ===== src/Ota/Store/Paging/Ties.antt =====
-- What the pages of `list_for_device` leave out when jobs were created in the same second.
use robot_fleet.Prelude.{
  ℕ, zero, suc, ◌+◌, ◌-◌, ◌≡◌, refl, ap, ◌∙◌, sym, String, true, Option, none, some, List, [], ◌∷◌,
  ◌++◌, arith, map, ◌==◌, eq_iff, Result, ok, err, take, select, get_elem?, All, Option-cases, inl,
  inr,
}
use mathlib.Core.Option
use mathlib.Core.List.{append-nil}
use robot_fleet.Prelude.Text.{text_ltb, text_ltb_irrefl, text_ltb_trans}
use robot_fleet.Sql.{Conn, next_fault}
use robot_fleet.Sql.Order.{place, order_rows}
use robot_fleet.Ota.Error.{Error}
use robot_fleet.Ota.Store.{
  JobRow, JobRecord, Jobs, row_to_record, is_listed, created_after, created_at_of, job_page,
  list_for_device,
}
use robot_fleet.Ota.Store.Paging.{follow}

module _ (k : String) where
  abbrev AreOlder : List JobRecord → Type 0
  AreOlder = All (λ r. text_ltb r.created_at k ≡ true)

  abbrev RowsOlder : List JobRow → Type 0
  RowsOlder = All (λ r. text_ltb r.created_at k ≡ true)

  select-RowsOlder :
      (id : String) (rows : List JobRow) → RowsOlder (select (is_listed id (some k)) rows)
  select-RowsOlder id [] = tt
  select-RowsOlder id (r ∷ rows) = ground (arith, select-RowsOlder id rows)

  place-RowsOlder :
      (x : JobRow) (rows : List JobRow)
      → text_ltb x.created_at k ≡ true
      → RowsOlder rows
      → RowsOlder (place created_after x rows)
  place-RowsOlder x [] h a = (h, tt)
  place-RowsOlder x (y ∷ rows) h a = ground (arith, place-RowsOlder x rows h a.1)

  order_rows-RowsOlder :
      (rows : List JobRow) → RowsOlder rows → RowsOlder (order_rows created_after rows)
  order_rows-RowsOlder [] a = tt
  order_rows-RowsOlder (x ∷ rows) a =
      place-RowsOlder x (order_rows created_after rows) a.0 (order_rows-RowsOlder rows a.1)

  map-AreOlder :
      (n : ℕ) (rows : List JobRow) → RowsOlder rows → AreOlder (map row_to_record (take n rows))
  map-AreOlder zero rows a = tt
  map-AreOlder (suc n) [] a = tt
  map-AreOlder (suc n) (x ∷ rows) a = (a.0, map-AreOlder n rows a.1)

  take-AreOlder : (n : ℕ) (rs : List JobRecord) → AreOlder rs → AreOlder (take n rs)
  take-AreOlder zero rs a = tt
  take-AreOlder (suc n) [] a = tt
  take-AreOlder (suc n) (x ∷ rs) a = (a.0, take-AreOlder n rs a.1)

  abbrev CursorOlder : Option String → Type 0
  CursorOlder none = Unit
  CursorOlder (some j) = text_ltb j k ≡ true

  get_elem?-CursorOlder :
      (n : ℕ) (rs : List JobRecord)
      → AreOlder rs
      → CursorOlder (Option.map created_at_of (get_elem? rs n))
  get_elem?-CursorOlder n [] a = tt
  get_elem?-CursorOlder zero (x ∷ rs) a = a.0
  get_elem?-CursorOlder (suc n) (x ∷ rs) a = get_elem?-CursorOlder n rs a.1

  job_page-CursorOlder :
      (limit : ℕ) (rs : List JobRecord) → AreOlder rs → CursorOlder (job_page limit rs).1
  unfolding job_page
  job_page-CursorOlder limit rs a = ground (arith, get_elem?-CursorOlder (limit - 1) rs a)

  append-AreOlder : (rs qs : List JobRecord) → AreOlder rs → AreOlder qs → AreOlder (rs ++ qs)
  append-AreOlder [] qs a b = b
  append-AreOlder (x ∷ rs) qs a b = (a.0, append-AreOlder rs qs a.1 b)

  -- the jobs that were created in this second
  abbrev pub created_in : List JobRecord → List JobRecord
  created_in = select (λ r. r.created_at == k)

  created_in-append :
      (rs qs : List JobRecord) → created_in (rs ++ qs) ≡ created_in rs ++ created_in qs
  created_in-append [] qs = refl
  created_in-append (x ∷ rs) qs = ground (arith, created_in-append rs qs)

  created_in-AreOlder : (rs : List JobRecord) → AreOlder rs → created_in rs ≡ []
  created_in-AreOlder [] a = refl
  created_in-AreOlder (x ∷ rs) a =
      ground (arith, created_in-AreOlder rs a.1, eq_iff x.created_at k, text_ltb_irrefl k)

AreOlder-mono :
    (j k : String) (rs : List JobRecord) → text_ltb j k ≡ true → AreOlder j rs → AreOlder k rs
AreOlder-mono j k [] h a = tt
AreOlder-mono j k (x ∷ rs) h a = (text_ltb_trans x.created_at j k a.0 h, AreOlder-mono j k rs h a.1)

module _ (id : String) (limit : ℕ) where
  -- A client that asks for pages until it is given no cursor or an error, on one connection.
  pub browse : ℕ → Option String → Conn Jobs → List JobRecord
  browse zero cursor c = []
  browse (suc fuel) cursor c =
      let (page, d) = list_for_device id limit cursor c in
      follow id limit c (λ next. browse fuel next d) page

  page-cut :
      (records rs : List JobRecord) (next : Option String)
      → job_page limit records ≡ (rs, next)
      → (rs ≡ take limit records) × (next ≡ (job_page limit records).1)
  unfolding job_page
  page-cut records rs next h = (sym (ap (λ p. p.0) h), sym (ap (λ p. p.1) h))

  fetched :
      (k : String) (c : Conn Jobs) (rs : List JobRecord) (next : Option String)
      → (list_for_device id limit (some k) c).0 ≡ ok (rs, next)
      → (records : List JobRecord) × AreOlder k records × (job_page limit records ≡ (rs, next))
  unfolding list_for_device
  fetched k c rs next h =
      let rows = order_rows created_after (select (is_listed id (some k)) c.tables) in
      let all = map row_to_record (take (limit + 1) rows) in
      let older = map-AreOlder k (limit + 1) rows (
        order_rows-RowsOlder k (select (is_listed id (some k)) c.tables)
          (select-RowsOlder k id c.tables)) in
      elim (Option-cases (next_fault c.faults)) [
        | inl works ↦ (all, older, ground arith)
        | inr (f, struck) ↦ elim (Option-cases f.at_row) [
          | inl at_once ↦ absurd (ground arith)
          | inr (n, between) ↦ (take n all, take-AreOlder k n all older, ground arith)
        ]
      ]

  -- a page is cut from some of the records behind the cursor, all of them if nothing fails
  page-AreOlder :
      (k : String) (c : Conn Jobs) (rs : List JobRecord) (next : Option String)
      → (list_for_device id limit (some k) c).0 ≡ ok (rs, next)
      → AreOlder k rs × CursorOlder k next
  page-AreOlder k c rs next h =
      let (records, older, page) = fetched k c rs next h in
      let (shown, following) = page-cut records rs next page in
      (
        rw shown (take-AreOlder k limit records older),
        rw following (job_page-CursorOlder k limit records older),
      )

  follow-AreOlder :
      (k : String) (c : Conn Jobs) (next : Option String → List JobRecord)
      (r : Result Error (List JobRecord × Option String))
      → ((rs : List JobRecord) (j : Option String)
          → r ≡ ok (rs, j)
          → AreOlder k rs × CursorOlder k j)
      → ((j : String) → AreOlder j (next (some j)))
      → AreOlder k (follow id limit c next r)
  follow-AreOlder k c next (err e) page later = tt
  follow-AreOlder k c next (ok (rs, none)) page later = (page rs none refl).0
  follow-AreOlder k c next (ok (rs, some j)) page later =
      let (older, less) = page rs (some j) refl in
      append-AreOlder k rs (next (some j)) older (AreOlder-mono j k (next (some j)) less (later j))

  browse-AreOlder : (fuel : ℕ) (k : String) (c : Conn Jobs) → AreOlder k (browse fuel (some k) c)
  unfolding browse
  browse-AreOlder zero k c = tt
  browse-AreOlder (suc fuel) k c =
      let d = (list_for_device id limit (some k) c).1 in
      follow-AreOlder k c (λ next. browse fuel next d) (list_for_device id limit (some k) c).0
        (page-AreOlder k c) (λ j. browse-AreOlder fuel j d)

  -- Of the jobs created in the second that a page's cursor names the client is shown those on that page and
  -- no others, however many pages it asks for: later pages leave out every job of that second. The
  -- engine may fail any later page, or cut it short, and leave others whole.
  pub tied_jobs_left_out :
      (fuel : ℕ) (cursor : Option String) (shown : List JobRecord) (k : String) (c : Conn Jobs)
      → (list_for_device id limit cursor c).0 ≡ ok (shown, some k)
      → created_in k (browse (suc fuel) cursor c) ≡ created_in k shown
  unfolding browse
  tied_jobs_left_out fuel cursor shown k c h =
      let rest = browse fuel (some k) (list_for_device id limit cursor c).1 in
      rw h (
        created_in-append k shown rest
        ∙ ap (λ rs. created_in k shown ++ rs)
            (created_in-AreOlder k rest
              (browse-AreOlder fuel k (list_for_device id limit cursor c).1))
        ∙ append-nil (created_in k shown))
