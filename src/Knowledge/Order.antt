-- ===== src/Knowledge/Order.antt =====
-- The documents of a notebook stand in the order in which they came
-- (zen_claw/knowledge/notebook.py).
use zen_claw.Base.{
  ◌||◌, ℕ, suc, ◌≤◌, ◌<◌, String, ◌≡◌, refl, true, false, Option, none, some, [], ◌∷◌, ◌==◌, eqb,
  ltb, arith, Bool-cases, inl, inr,
}
use zen_claw.Base.Text.{strip}
use zen_claw.Base.Dict.{Dict, get, put, remove, get-put, get-remove}
use zen_claw.Knowledge.Sources.{
  Source, Sources, or_no_rows, is_source, find_source, with_units, add_units, latest, new_source,
  recorded, record_row, record_source, comes_first, insert_listed, sort_listed, all_listed,
  list_documents, kept_rows, removed_rows, remove_document, clear_documents,
}

-- Each row is later than the one before it, and the first is at `b` or later.
unfoldable Above : ℕ → Dict Source → Type 0
Above b [] = Unit
Above b ((id, row) ∷ rows) = (b ≤ row.created_at) × Above (suc row.created_at) rows

Above-weaken : (a b : ℕ) (rows : Dict Source) → a ≤ b → Above b rows → Above a rows
unfolding Above
Above-weaken a b [] h ab = tt
Above-weaken a b ((id, row) ∷ rows) h ab = (omega (arith, ab.0), ab.1)

Above-remove : (b : ℕ) (rows : Dict Source) (k : String) → Above b rows → Above b (remove rows k)
unfolding Above remove
Above-remove b [] k ab = tt
Above-remove b ((id, row) ∷ rows) k ab = elim (Bool-cases (id == k)) [
  | inl e ↦
      rw e (
        Above-remove b rows k (Above-weaken b (suc row.created_at) rows (omega (arith, ab.0)) ab.1))
  | inr e ↦ rw e (ab.0, Above-remove (suc row.created_at) rows k ab.1)
]

with_units_created :
    (units : ℕ) (metadata : Dict String) (row : Source)
    → (with_units units metadata row).created_at ≡ row.created_at
with_units_created units [] row = refl
with_units_created units (m ∷ metadata) row = refl

Above-add_units :
    (clean : String) (units : ℕ) (metadata : Dict String) (b : ℕ) (rows : Dict Source)
    → Above b rows
    → Above b (add_units clean units metadata rows)
unfolding Above add_units
Above-add_units clean units metadata b [] ab = tt
Above-add_units clean units metadata b ((id, row) ∷ rows) ab =
    elim (Bool-cases (is_source clean row)) [
      | inl e ↦ rw (e, with_units_created units metadata row) ab
      | inr e ↦ rw e (ab.0, Above-add_units clean units metadata (suc row.created_at) rows ab.1)
    ]

Above-put :
    (b : ℕ) (rows : Dict Source) (k : String) (v : Source)
    → get rows k ≡ none
    → b ≤ v.created_at
    → latest rows < v.created_at
    → Above b rows
    → Above b (put rows k v)
unfolding Above put get latest
Above-put b [] k v free hb hl ab = (hb, tt)
Above-put b ((id, row) ∷ rows) k v free hb hl ab = elim (Bool-cases (id == k)) [
  | inl e ↦ ground (arith, e, free)
  | inr e ↦ rw e (
    ab.0,
    Above-put (suc row.created_at) rows k v (ground (arith, e, free)) (omega (arith, hl))
        (omega (arith, hl)) ab.1,
  )
]

later_unequal : (a b : ℕ) → suc a ≤ b → eqb a b ≡ false
later_unequal a b h = ground arith

later_less : (a b : ℕ) → suc a ≤ b → ltb a b ≡ true
later_less a b h = ground arith

sort_listed-all_listed :
    (b : ℕ) (rows : Dict Source) → Above b rows → sort_listed (all_listed rows) ≡ all_listed rows
unfolding Above sort_listed all_listed insert_listed comes_first
sort_listed-all_listed b [] ab = refl
sort_listed-all_listed b ((id, row) ∷ []) ab = refl
sort_listed-all_listed b ((id, row) ∷ (id2, row2) ∷ rows) ab =
    rw
      (
        sort_listed-all_listed (suc row.created_at) ((id2, row2) ∷ rows) ab.1,
        later_unequal row.created_at row2.created_at ab.1.0,
        later_less row.created_at row2.created_at ab.1.0,
      )
      refl

-- What the manager can come to: any of its calls, on any notebook, with any reading of the clock.
pub data Reached : Sources → Type 0 where
  start : Reached []
  record_step :
      {s : Sources} (notebook_id source : String) (units : ℕ) (metadata : Dict String) (now : ℕ)
      (fresh : String)
      → get (or_no_rows (get s notebook_id)) fresh ≡ none
      → Reached s
      → Reached (record_source s notebook_id source units metadata now fresh).0
  remove_step :
      {s : Sources} (notebook_id id : String)
      → Reached s
      → Reached (remove_document s notebook_id id).0
  clear_step :
      {s : Sources} (notebook_id : String) → Reached s → Reached (clear_documents s notebook_id).0

-- the rows of a notebook
abbrev rows_of : Sources → String → Dict Source
rows_of s notebook_id = or_no_rows (get s notebook_id)

unfoldable InOrder : Sources → Type 0
InOrder s = (notebook_id : String) → Above 0 (rows_of s notebook_id)

new_source_late :
    (rows : Dict Source) (clean : String) (units : ℕ) (metadata : Dict String) (now : ℕ)
    → latest rows < (new_source rows clean units metadata now).created_at
unfolding new_source
new_source_late rows clean units metadata now = ground arith

Above-recorded :
    (rows : Dict Source) (clean : String) (units : ℕ) (metadata : Dict String) (now : ℕ)
    (fresh : String) (found : Option String)
    → get rows fresh ≡ none
    → Above 0 rows
    → Above 0 (recorded rows clean units metadata now fresh found).0
Above-recorded rows clean units metadata now fresh (some id) free ab =
    Above-add_units clean units metadata 0 rows ab
Above-recorded rows clean units metadata now fresh none free ab =
    Above-put 0 rows fresh (new_source rows clean units metadata now) free (ground arith)
      (new_source_late rows clean units metadata now) ab

InOrder-put :
    (s : Sources) (k : String) (rows : Dict Source)
    → Above 0 rows
    → InOrder s
    → InOrder (put s k rows)
unfolding InOrder
InOrder-put s k rows ab order j = elim (Bool-cases (k == j)) [
  | inl e ↦ rw (get-put s k j rows, e) ab
  | inr e ↦ rw (get-put s k j rows, e) (order j)
]

InOrder-remove : (s : Sources) (k : String) → InOrder s → InOrder (remove s k)
unfolding InOrder
InOrder-remove s k order j = elim (Bool-cases (k == j)) [
  | inl e ↦ rw (get-remove s k j, e) (unfold Above in tt)
  | inr e ↦ rw (get-remove s k j, e) (order j)
]

InOrder-record_source :
    (s : Sources) (notebook_id source : String) (units : ℕ) (metadata : Dict String) (now : ℕ)
    (fresh : String)
    → get (rows_of s notebook_id) fresh ≡ none
    → InOrder s
    → InOrder (record_source s notebook_id source units metadata now fresh).0
unfolding record_source record_row
InOrder-record_source s notebook_id source units metadata now fresh free order =
    let clean = strip source in
    let rows = rows_of s notebook_id in
    elim (Bool-cases (clean == "" || eqb units 0)) [
      | inl e ↦ rw e order
      | inr e ↦ rw e (
          InOrder-put s notebook_id
            (recorded rows clean units metadata now fresh (find_source clean rows)).0
            (Above-recorded rows clean units metadata now fresh (find_source clean rows) free
              (unfold InOrder in order notebook_id))
            order)
    ]

InOrder-kept_rows :
    (s : Sources) (k : String) (rows : Dict Source)
    → Above 0 rows
    → InOrder s
    → InOrder (kept_rows s k rows)
InOrder-kept_rows s k [] ab order = InOrder-remove s k order
InOrder-kept_rows s k (r ∷ rows) ab order = InOrder-put s k (r ∷ rows) ab order

InOrder-removed_rows :
    (s : Sources) (k id : String) (found : Option (Dict Source))
    → Above 0 (or_no_rows found)
    → InOrder s
    → InOrder (removed_rows s k id found).0
InOrder-removed_rows s k id none ab order = order
InOrder-removed_rows s k id (some rows) ab order =
    InOrder-kept_rows s k (remove rows id) (Above-remove 0 rows id ab) order

InOrder-remove_document :
    (s : Sources) (k id : String) → InOrder s → InOrder (remove_document s k id).0
unfolding remove_document
InOrder-remove_document s k id order = elim (Bool-cases (strip id == "")) [
  | inl e ↦ rw e order
  | inr e ↦ rw e (InOrder-removed_rows s k (strip id) (get s k) (unfold InOrder in order k) order)
]

InOrder-clear_documents : (s : Sources) (k : String) → InOrder s → InOrder (clear_documents s k).0
unfolding clear_documents
InOrder-clear_documents s k order = InOrder-remove s k order

InOrder-Reached : {s : Sources} → Reached s → InOrder s
InOrder-Reached start = unfold InOrder Above get in λ j. tt
InOrder-Reached (record_step k source units metadata now fresh free r) =
    InOrder-record_source _ k source units metadata now fresh free (InOrder-Reached r)
InOrder-Reached (remove_step k id r) = InOrder-remove_document _ k id (InOrder-Reached r)
InOrder-Reached (clear_step k r) = InOrder-clear_documents _ k (InOrder-Reached r)

-- After any sequence of `record_source`, `remove_document` and `clear_documents` on the empty store,
-- in which each identifier drawn for a document is new in its notebook, `list_documents` gives the
-- documents of every notebook in the order in which their sources were first recorded, even where the
-- clock went back between two calls.
pub list_documents-Reached :
    {s : Sources}
    → Reached s
    → (notebook_id : String) → list_documents s notebook_id ≡ all_listed (rows_of s notebook_id)
unfolding list_documents
list_documents-Reached r notebook_id =
    sort_listed-all_listed 0 (rows_of _ notebook_id)
      (unfold InOrder in InOrder-Reached r notebook_id)
