-- ===== src/Inbounds/Values/Headers.antt =====
-- Header lists: `collapseHeaders` keeps the last value of each name.
use rx_ui.Base.{
  ◌≡◌, ◌≢◌, refl, List, [], ◌∷◌, ◌++◌, Option, none, some, sym, ap, ◌∙◌, subst, ◌++◌, arith,
  Bool-cases, inl, inr, is_empty, if◌then◌else◌, append_assoc, append-nil,
}
use rx_ui.Js.Text.{Text, trim, text_eq}
use rx_ui.Js.Text.Trim.{text_eq_iff, trim_idem}
use rx_ui.Js.Object.{
  Object, lookup, lookup-put, HasDistinctKeys, Keys, put-Keys, put-HasDistinctKeys, put_fresh,
  fresh_of_HasDistinctKeys,
}
use rx_ui.Inbounds.Form.{HeaderRow}
use rx_ui.Inbounds.Values.{add_header, collapse_from, collapse_headers, header_rows}
use rx_ui.Inbounds.Values.Laws.{IsFilledText}

-- The value of the last row that carries the name `k`.
pub last_value : Text → List HeaderRow → Option Text
last_value k [] = none
last_value k (h ∷ rows) = elim (last_value k rows) [
  | some v ↦ some v
  | none ↦ if text_eq (trim h.name) k then some h.value else none
]

abbrev or_else : Option Text → Option Text → Option Text
or_else none o = o
or_else (some v) o = some v

lookup-collapse_from :
    (k : Text)
    → k ≢ []
    → (out : Object Text) (rows : List HeaderRow)
    → lookup k (collapse_from out rows) ≡ or_else (last_value k rows) (lookup k out)
unfolding collapse_from last_value
lookup-collapse_from k ne out [] = refl
lookup-collapse_from k ne out (h ∷ rows) = ground (
  arith,
  lookup-collapse_from k ne (add_header out h) rows,
  lookup-put (trim h.name) k h.value out,
  text_eq_iff (trim h.name) k,
)

-- Under every name that is not blank, the collapsed headers hold the value of the last row that
-- carries the name, or nothing if no row does.
pub lookup-collapse_headers :
    (k : Text) (rows : List HeaderRow)
    → k ≢ []
    → lookup k (collapse_headers rows) ≡ last_value k rows
unfolding collapse_headers lookup
lookup-collapse_headers k rows ne = ground (arith, lookup-collapse_from k ne [] rows)

abbrev pub IsSettledHeaders : Object Text → Type 0
IsSettledHeaders o = HasDistinctKeys o × Keys IsFilledText o

add_header-IsSettled :
    (o : Object Text) (h : HeaderRow) → IsSettledHeaders o → IsSettledHeaders (add_header o h)
add_header-IsSettled o h (d, f) = elim (Bool-cases (is_empty (trim h.name))) [
  | inl e ↦ rw e (d, f)
  | inr e ↦
      let ne : trim h.name ≢ [] = ground arith in
      rw e (
        put-HasDistinctKeys (trim h.name) h.value o d,
        put-Keys IsFilledText (trim h.name) h.value o (trim_idem h.name, ne) f,
      )
]

collapse_from-IsSettled :
    (o : Object Text) (rows : List HeaderRow)
    → IsSettledHeaders o
    → IsSettledHeaders (collapse_from o rows)
unfolding collapse_from
collapse_from-IsSettled o [] h = h
collapse_from-IsSettled o (r ∷ rows) h =
    collapse_from-IsSettled (add_header o r) rows (add_header-IsSettled o r h)

-- The collapsed headers have distinct names, each trimmed and none of them blank.
pub collapse_headers-IsSettled : (rows : List HeaderRow) → IsSettledHeaders (collapse_headers rows)
unfolding collapse_headers
collapse_headers-IsSettled rows = collapse_from-IsSettled [] rows (tt, tt)

collapse_from-header_rows :
    (out o : Object Text)
    → HasDistinctKeys (out ++ o)
    → Keys IsFilledText o
    → collapse_from out (header_rows o) ≡ out ++ o
unfolding collapse_from
collapse_from-header_rows out [] d f = sym (append-nil out)
collapse_from-header_rows out ((k, v) ∷ o) d ((t, ne), f) =
    let fresh = put_fresh k v out (fresh_of_HasDistinctKeys out k v o d) in
    let added : add_header out (record { name = k; value = v }) ≡ out ++ (k, v) ∷ [] =
      ground arith in
    let regroup = append_assoc out ((k, v) ∷ []) o in
    ap (λ z. collapse_from z (header_rows o)) added
    ∙ collapse_from-header_rows (out ++ (k, v) ∷ []) o (subst HasDistinctKeys (sym regroup) d) f
    ∙ regroup

-- Headers with distinct names, each trimmed and not blank, come back from their rows unchanged.
pub collapse_headers-header_rows :
    (o : Object Text) → IsSettledHeaders o → collapse_headers (header_rows o) ≡ o
unfolding collapse_headers
collapse_headers-header_rows o (d, f) = collapse_from-header_rows [] o d f
