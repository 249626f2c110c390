-- ===== src/Store/Listing.antt =====
-- The order and the pages of `list_all`.
use fuzzy_octo_train.Prelude.{
  string_eq, ℕ, zero, suc, ◌+◌, ◌-◌, min, String, List, [], ◌∷◌, ◌++◌, Dict, values, put, has, pos,
  ◌≡◌, refl, arith, ap, length, take, drop, false, ◌∙◌,
}
use fuzzy_octo_train.Models.{Workflow}
use fuzzy_octo_train.Store.{InMemoryStore, save, slice, list_all}

length-drop {ℓ} : {A : Type ℓ} (n : ℕ) (xs : List A) → length (drop n xs) ≡ length xs - n
length-drop zero xs = omega arith
length-drop (suc n) [] = omega arith
length-drop (suc n) (x ∷ xs) = omega (arith, length-drop n xs)

-- Beyond the length of a list, numbers to take or to drop are all alike.
take_same {ℓ} :
    {A : Type ℓ} (n m : ℕ) (xs : List A)
    → min n (length xs) ≡ min m (length xs)
    → take n xs ≡ take m xs
take_same zero zero xs e = refl
take_same zero (suc m) [] e = refl
take_same zero (suc m) (x ∷ xs) e = absurd (omega arith)
take_same (suc n) zero [] e = refl
take_same (suc n) zero (x ∷ xs) e = absurd (omega arith)
take_same (suc n) (suc m) [] e = refl
take_same (suc n) (suc m) (x ∷ xs) e = ap (◌∷◌ x) (take_same n m xs (omega arith))

drop_same {ℓ} :
    {A : Type ℓ} (n m : ℕ) (xs : List A)
    → min n (length xs) ≡ min m (length xs)
    → drop n xs ≡ drop m xs
drop_same zero zero xs e = refl
drop_same zero (suc m) [] e = refl
drop_same zero (suc m) (x ∷ xs) e = absurd (omega arith)
drop_same (suc n) zero [] e = refl
drop_same (suc n) zero (x ∷ xs) e = absurd (omega arith)
drop_same (suc n) (suc m) [] e = refl
drop_same (suc n) (suc m) (x ∷ xs) e = drop_same n m xs (omega arith)

slice_page {ℓ} :
    {A : Type ℓ} (xs : List A) (limit offset : ℕ)
    → slice xs (pos offset) (pos (offset + limit)) ≡ take limit (drop offset xs)
unfolding slice
slice_page xs limit offset =
    ap (take (min (offset + limit) (length xs) - min offset (length xs)))
      (drop_same (min offset (length xs)) offset xs (omega arith))
    ∙ take_same (min (offset + limit) (length xs) - min offset (length xs)) limit (drop offset xs)
        (omega (arith, length-drop offset xs))

-- With a limit and an offset that are not negative, `list_all` skips `offset` workflows and lists at
-- most `limit` of those that follow, in the order of the store.
pub list_all_page :
    {V : Type 0} (s : InMemoryStore V) (limit offset : ℕ)
    → list_all s (pos limit) (pos offset) ≡ take limit (drop offset (values s.workflows))
unfolding list_all
list_all_page s limit offset = ground (arith, slice_page (values s.workflows) limit offset)

values_append :
    {V : Type 0} (d : Dict String (Workflow V)) (w : Workflow V)
    → has d w.id ≡ false
    → values (put d w.id w) ≡ values d ++ w ∷ []
values_append [] w new = refl
values_append ((k, v) ∷ d) w new = ground (arith, values_append d w)

-- A workflow saved under a new id comes last in every listing to come.
pub values-save :
    {V : Type 0} (s : InMemoryStore V) (w : Workflow V)
    → has s.workflows w.id ≡ false
    → values (save s w).workflows ≡ values s.workflows ++ w ∷ []
unfolding save
values-save s w new = values_append s.workflows w new
