-- ===== src/AttackSurface/Kept.antt =====
-- packages/modules/attack_surface/src/seclab_attack_surface/db.py and service.py: the scans that
-- are kept. The table against a function from ids to results.
use mathlib.Core.Option
use seclab.Prelude.{
  ℕ, ◌≡◌, ◌≤◌, ◌∙◌, ap, refl, Option, none, some, List, [], ◌∷◌, length, map, take, find, All,
  All-of_mem, Any, Any-map, zero, suc, Bool-cases, inl, inr, if◌then◌else◌, ◌==◌, order_desc,
  IsDescending, order_desc-IsDescending, order_desc-All,
}
use seclab.Prelude.Parts.{take-All, length-take-le}
use seclab.Prelude.Text.{Text, text_eq}
use seclab.Db.Repository.{get_by, get_by-save_by}
use seclab.AttackSurface.{
  SurfaceScanResult, SurfaceScanRun, SurfaceScanListItem, save, get, list_item, list_recent,
}

-- What a repository promises: a result for some ids.
abbrev pub Results : Type 0
Results = Text → Option SurfaceScanResult

abbrev pub no_results : Results
no_results j = none

abbrev pub put_result : SurfaceScanResult → Results → Results
put_result result results j = if result.scan_id == j then some result else results j

abbrev pub put_results : List SurfaceScanResult → Results → Results
put_results [] results = results
put_results (r ∷ saved) results = put_results saved (put_result r results)

module _ (dump : SurfaceScanResult → Text) (parse : Text → Option SurfaceScanResult) where
  abbrev pub IsReadBack : SurfaceScanResult → Type 0
  IsReadBack r = parse (dump r) ≡ some r

  abbrev pub save_all : List SurfaceScanResult → List SurfaceScanRun → List SurfaceScanRun
  save_all [] rows = rows
  save_all (r ∷ saved) rows = save_all saved (save dump r rows)

  load : Option Text → Option SurfaceScanResult
  load none = none
  load (some payload) = parse payload

  load_on :
      (o : Option SurfaceScanRun)
      → (elim o [ none ↦ none | some row ↦ parse row.payload_json ])
        ≡ load (Option.map (λ r. r.payload_json) o)
  unfolding load
  load_on none = refl
  load_on (some row) = refl

  get-load :
      (j : Text) (rows : List SurfaceScanRun)
      → get parse j rows ≡ load (Option.map (λ r. r.payload_json) (get_by (λ r. r.scan_id) j rows))
  unfolding get
  get-load j rows = load_on (get_by (λ r. r.scan_id) j rows)

  pub get-save :
      (r : SurfaceScanResult) (j : Text) (rows : List SurfaceScanRun)
      → IsReadBack r
      → get parse j (save dump r rows) ≡ put_result r (λ k. get parse k rows) j
  unfolding save
  get-save r j rows inverse =
      get-load j _
      ∙ ap load (
          get_by-save_by (λ r. r.scan_id) (λ r. r.payload_json) r.scan_id _ _ (dump r) (λ a. refl)
            refl (λ a. refl) refl j rows)
      ∙ elim (Bool-cases (r.scan_id == j)) [
        | inl e ↦ rw e (unfold load in inverse)
        | inr e ↦ rw (e, get-load j rows) refl
      ]

  put_results_same :
      (saved : List SurfaceScanResult) (f g : Results)
      → ((j : Text) → f j ≡ g j)
      → (j : Text) → put_results saved f j ≡ put_results saved g j
  put_results_same [] f g h j = h j
  put_results_same (r ∷ saved) f g h j =
      put_results_same saved (put_result r f) (put_result r g)
        (λ k. ap (λ o. if r.scan_id == k then some r else o) (h k)) j

  get-save_all_from :
      (saved : List SurfaceScanResult) (rows : List SurfaceScanRun) (j : Text)
      → All IsReadBack saved
      → get parse j (save_all saved rows) ≡ put_results saved (λ k. get parse k rows) j
  get-save_all_from [] rows j h = refl
  get-save_all_from (r ∷ saved) rows j (inverse, h) =
      get-save_all_from saved (save dump r rows) j h
      ∙ put_results_same saved _ _ (λ k. get-save r k rows inverse) j

  -- Whatever results were saved into an empty table, in whatever order and however often under
  -- one id, the repository answers for every id what the function does that each of them
  -- updated: the last result saved under the id, or none; if the payload of each of them is
  -- parsed to the result that it was dumped from.
  pub get-save_all :
      (saved : List SurfaceScanResult) (j : Text)
      → All IsReadBack saved
      → get parse j (save_all saved []) ≡ put_results saved no_results j
  unfolding get get_by find
  get-save_all saved j h = get-save_all_from saved [] j h

-- The items are at most `limit`, the newest first, and each is of a row of the table.
pub record IsRecent (limit : ℕ) (rows : List SurfaceScanRun) (items : List SurfaceScanListItem)
    : Type 0 where
  pub bounded : length items ≤ limit
  pub newest_first : IsDescending (λ i. i.created_at) items
  pub kept : All (λ i. Any (λ r. list_item r ≡ i) rows) items

module _ {A : Type 0} (key : A → ℕ) where
  take-IsDescending : (n : ℕ) (xs : List A) → IsDescending key xs → IsDescending key (take n xs)
  unfolding take
  take-IsDescending zero xs h = tt
  take-IsDescending (suc n) [] h = tt
  take-IsDescending (suc n) (x ∷ xs) (top, h) =
      (take-All (λ b. key b ≤ key x) n xs top, take-IsDescending n xs h)

items-All :
    (P : SurfaceScanListItem → Type 0) (rows : List SurfaceScanRun)
    → All (λ r. P (list_item r)) rows
    → All P (map list_item rows)
items-All P [] h = tt
items-All P (r ∷ rows) (p, h) = (p, items-All P rows h)

items-IsDescending :
    (rows : List SurfaceScanRun)
    → IsDescending (λ r. r.created_at) rows
    → IsDescending (λ i. i.created_at) (map list_item rows)
unfolding list_item
items-IsDescending [] h = tt
items-IsDescending (r ∷ rows) (top, h) =
    (items-All (λ i. i.created_at ≤ r.created_at) rows top, items-IsDescending rows h)

length-items : (rows : List SurfaceScanRun) → length (map list_item rows) ≡ length rows
length-items [] = refl
length-items (r ∷ rows) = ap suc (length-items rows)

-- The list of the recent scans has at most as many items as were asked for, each for a row of the
-- table, the one that was created last first.
pub list_recent-IsRecent :
    (limit : ℕ) (rows : List SurfaceScanRun) → IsRecent limit rows (list_recent limit rows)
unfolding list_recent
list_recent-IsRecent limit rows =
    let ordered = order_desc (λ r. r.created_at) rows in
    record {
      bounded = rw (length-items (take limit ordered)) (length-take-le limit ordered);
      newest_first = items-IsDescending (take limit ordered) (
          take-IsDescending (λ r. r.created_at) limit ordered
            (order_desc-IsDescending (λ r. r.created_at) rows));
      kept =
          items-All (λ i. Any (λ r. list_item r ≡ i) rows) (take limit ordered)
            (take-All _ limit ordered (
              order_desc-All (λ r. r.created_at) _ rows
                (All-of_mem _ rows (λ r m. Any-map (λ q e. ap list_item e) m))));
    }
