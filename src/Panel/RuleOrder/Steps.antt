-- ===== src/Panel/RuleOrder/Steps.antt =====
-- What each step of the derivation of the rule order keeps: its members, and that none repeats.
use rx_ui.Base.{
  ℕ, zero, suc, ◌≡◌, refl, ap, Bool, true, false, not, ◌&&◌, ◌||◌, List, [], ◌∷◌, ◌++◌, some, first,
  arith, Bool-cases, inl, inr,
}
use rx_ui.Js.Text.{Text, text_eq}
use rx_ui.Js.Text.Trim.{text_eq_iff, text_eq_refl}
use rx_ui.Js.Text.Includes.{IsDistinct, append-IsDistinct, includes, includes-append}
use rx_ui.Panel.RuleOrder.{api, keep_known, pin_api, push_missing, remove_first, splice_in}

module _ (valid : Text → Bool) where
  pub includes-keep_known :
      (t : Text) (seen toks : List Text)
      → includes t (keep_known valid seen toks)
        ≡ (includes t toks && valid t && not (includes t seen))
  unfolding keep_known includes
  includes-keep_known t seen [] = refl
  includes-keep_known t seen (tok ∷ toks) = ground (
    arith,
    text_eq_iff tok t,
    includes-keep_known t seen toks,
    includes-keep_known t (tok ∷ seen) toks,
  )

  pub keep_known-IsDistinct : (seen toks : List Text) → IsDistinct (keep_known valid seen toks)
  unfolding keep_known includes
  keep_known-IsDistinct seen [] = tt
  keep_known-IsDistinct seen (tok ∷ toks) = ground (
    arith,
    text_eq_refl tok,
    includes-keep_known tok (tok ∷ seen) toks,
    keep_known-IsDistinct seen toks,
    keep_known-IsDistinct (tok ∷ seen) toks,
  )

  pub keep_known_all :
      (seen toks : List Text)
      → IsDistinct toks
      → ((t : Text) → includes t toks ≡ true → (valid t ≡ true) × (includes t seen ≡ false))
      → keep_known valid seen toks ≡ toks
  unfolding keep_known includes
  keep_known_all seen [] d h = refl
  keep_known_all seen (tok ∷ toks) (hd, d) h = ground (
    arith,
    h tok,
    text_eq_refl tok,
    keep_known_all (tok ∷ seen) toks d (λ t k. ground (arith, h t, text_eq_iff tok t)),
  )

pub includes-splice_in :
    (t : Text) (n : ℕ) (ys xs : List Text)
    → includes t (splice_in n ys xs) ≡ (includes t xs || includes t ys)
unfolding splice_in includes
includes-splice_in t n ys [] = refl
includes-splice_in t zero ys (x ∷ xs) = ground (arith, includes-append t ys (x ∷ xs))
includes-splice_in t (suc n) ys (x ∷ xs) = ground (arith, includes-splice_in t n ys xs)

pub splice_in-IsDistinct :
    (n : ℕ) (ys xs : List Text)
    → IsDistinct ys
    → IsDistinct xs
    → ((t : Text) → includes t ys ≡ true → includes t xs ≡ false)
    → IsDistinct (splice_in n ys xs)
unfolding splice_in includes
splice_in-IsDistinct n ys [] hy hx d = hy
splice_in-IsDistinct zero ys (x ∷ xs) hy hx d = append-IsDistinct ys (x ∷ xs) hy hx d
splice_in-IsDistinct (suc n) ys (x ∷ xs) hy (hx, h) d = (
  ground (arith, includes-splice_in x n ys xs, d x, text_eq_refl x),
  splice_in-IsDistinct n ys xs hy h (λ t k. ground (arith, d t)),
)

pub splice_in-nil : (n : ℕ) (xs : List Text) → splice_in n [] xs ≡ xs
unfolding splice_in
splice_in-nil n [] = refl
splice_in-nil zero (x ∷ xs) = refl
splice_in-nil (suc n) (x ∷ xs) = ap (λ r. x ∷ r) (splice_in-nil n xs)

pub includes-push_missing :
    (t : Text) (order ids : List Text)
    → includes t (push_missing order ids) ≡ (includes t order || includes t ids)
unfolding push_missing includes
includes-push_missing t order [] = ground arith
includes-push_missing t order (id ∷ ids) = ground (
  arith,
  text_eq_iff id t,
  includes-append t order (id ∷ []),
  includes-push_missing t order ids,
  includes-push_missing t (order ++ id ∷ []) ids,
)

pub push_missing-IsDistinct :
    (order ids : List Text) → IsDistinct order → IsDistinct (push_missing order ids)
unfolding push_missing
push_missing-IsDistinct order [] h = h
push_missing-IsDistinct order (id ∷ ids) h = elim (Bool-cases (includes id order)) [
  | inl e ↦ rw e (push_missing-IsDistinct order ids h)
  | inr e ↦
      let one : (t : Text) → includes t order ≡ true → includes t (id ∷ []) ≡ false =
        λ t k. unfold includes in ground (arith, text_eq_iff id t) in
      rw e (
        push_missing-IsDistinct (order ++ id ∷ []) ids
          (append-IsDistinct order (id ∷ []) h (unfold includes in (refl, tt)) one))
]

pub push_missing_none :
    (order ids : List Text)
    → ((t : Text) → includes t ids ≡ true → includes t order ≡ true)
    → push_missing order ids ≡ order
unfolding push_missing includes
push_missing_none order [] h = refl
push_missing_none order (id ∷ ids) h =
    ground (arith, h id, text_eq_refl id, push_missing_none order ids (λ t k. h t (ground arith)))

includes-remove_first :
    (t k : Text) (xs : List Text)
    → includes k xs ≡ true
    → (includes t (remove_first k xs) || text_eq k t) ≡ includes t xs
unfolding remove_first includes
includes-remove_first t k [] h = cc
includes-remove_first t k (x ∷ xs) h =
    ground (arith, text_eq_iff x k, text_eq_iff k t, text_eq_iff x t, includes-remove_first t k xs)

remove_first_keeps :
    (t k : Text) (xs : List Text) → includes t xs ≡ false → includes t (remove_first k xs) ≡ false
unfolding remove_first includes
remove_first_keeps t k [] h = refl
remove_first_keeps t k (x ∷ xs) h = ground (arith, remove_first_keeps t k xs)

remove_first-IsDistinct :
    (k : Text) (xs : List Text)
    → IsDistinct xs
    → IsDistinct (remove_first k xs) × (includes k (remove_first k xs) ≡ false)
unfolding remove_first includes
remove_first-IsDistinct k [] h = (tt, refl)
remove_first-IsDistinct k (x ∷ xs) (hx, h) =
    ground (arith, text_eq_iff x k, remove_first-IsDistinct k xs h, remove_first_keeps x k xs)

pub includes-pin_api : (t : Text) (xs : List Text) → includes t (pin_api xs) ≡ includes t xs
unfolding pin_api includes
includes-pin_api t [] = refl
includes-pin_api t (x ∷ xs) =
    ground (arith, includes-remove_first t api xs, text_eq_iff x t, text_eq_iff api t)

pub pin_api-IsDistinct : (xs : List Text) → IsDistinct xs → IsDistinct (pin_api xs)
unfolding pin_api includes
pin_api-IsDistinct [] h = tt
pin_api-IsDistinct (x ∷ xs) (hx, h) = ground (
  arith,
  text_eq_iff x api,
  text_eq_iff api x,
  remove_first-IsDistinct api xs h,
  remove_first_keeps x api xs,
)

pub first-pin_api : (xs : List Text) → includes api xs ≡ true → first (pin_api xs) ≡ some api
unfolding pin_api includes
first-pin_api [] h = cc
first-pin_api (x ∷ xs) h = ground (arith, text_eq_iff x api)

pub pin_api_pinned : (xs : List Text) → first xs ≡ some api → pin_api xs ≡ xs
unfolding pin_api
pin_api_pinned [] h = refl
pin_api_pinned (x ∷ xs) h = ground (arith, text_eq_refl api)
