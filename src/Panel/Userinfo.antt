-- ===== src/Panel/Userinfo.antt =====
-- `parseUserinfo` of frontend/src/pages/SubscriptionLanding.tsx: the header that tells the traffic of a
-- subscription. `read` is the conversion `Number(text)`.
use rx_ui.Base.{
  ◌≡◌, ◌≢◌, refl, ap, ◌∙◌, ◌||◌, List, [], ◌∷◌, ◌++◌, get_or, All-append, is_empty, arith,
  if◌then◌else◌,
}
use mathlib.Core.List.{cons-ne-nil}
use rx_ui.Js.Text.{Text, codes, is_space, split, text_eq, trim}
use rx_ui.Js.Text.Split.{Lacks, split_at_sep, split_whole}
use rx_ui.Js.Text.Trim.{IsSolid, trim-cons, trim_of_IsSolid}
use rx_ui.Js.Number.{Number, num, print}
use rx_ui.Js.Number.Decimal.{IsNatural, digits-IsSolid, print-All, print-ne-nil}
use rx_ui.Js.Object.{Object, lookup, put}
use rx_ui.Inbounds.Ranges.RoundTrip.{digits-Lacks}

pub record Userinfo : Type 0 where
  pub upload : Number
  pub download : Number
  pub total : Number

-- `kv.get(name) ?? 0`, of the three names
abbrev pub userinfo_of : Object Number → Userinfo
userinfo_of kv = record {
  upload = get_or (lookup (codes "upload") kv) (num 0);
  download = get_or (lookup (codes "download") kv) (num 0);
  total = get_or (lookup (codes "total") kv) (num 0);
}

module _ (read : Text → Number) where
  -- `const [k, v] = …; if (k && v) kv.set(…)`
  abbrev pub set_pair : Object Number → List Text → Object Number
  set_pair kv (k ∷ v ∷ _) = if is_empty k || is_empty v then kv else put (trim k) (read (trim v)) kv
  set_pair kv _ = kv

  unfoldable pub set_parts : Object Number → List Text → Object Number
  set_parts kv [] = kv
  set_parts kv (part ∷ parts) = set_parts (set_pair kv (split b'=' (trim part))) parts

  unfoldable pub parse_userinfo : Text → Userinfo
  parse_userinfo s = userinfo_of (set_parts [] (split b';' s))

-- `NAME=NUMBER`
abbrev pub entry : Text → Number → Text
entry name x = name ++ b'=' ∷ print x

-- `upload=U; download=D; total=T`
abbrev pub userinfo_text : (upload download total : Number) → Text
userinfo_text u d t =
    entry (codes "upload") u
    ++ b';' ∷ (b' ' ∷ entry (codes "download") d ++ b';' ∷ (b' ' ∷ entry (codes "total") t))

-- A name that is written without a space, without `=` and without `;`.
abbrev IsName : Text → Type 0
IsName name = (name ≢ []) × (IsSolid name × (Lacks b'=' name × Lacks b';' name))

entry-Lacks : (name : Text) (x : Number) → IsName name → IsNatural x → Lacks b';' (entry name x)
entry-Lacks name x (ne, (hs, (he, hl))) hx =
    All-append _ name (b'=' ∷ print x) hl
      (omega arith, digits-Lacks b';' (print x) (omega arith) (print-All x hx))

entry-IsSolid : (name : Text) (x : Number) → IsName name → IsNatural x → IsSolid (entry name x)
unfolding is_space
entry-IsSolid name x (ne, (hs, (he, hl))) hx =
    All-append _ name (b'=' ∷ print x) hs (refl, digits-IsSolid (print x) (print-All x hx))

upload-IsName : IsName (codes "upload")
unfolding is_space
upload-IsName = (cons-ne-nil _ _, ground arith)

download-IsName : IsName (codes "download")
unfolding is_space
download-IsName = (cons-ne-nil _ _, ground arith)

total-IsName : IsName (codes "total")
unfolding is_space
total-IsName = (cons-ne-nil _ _, ground arith)

split-userinfo_text :
    (u d t : Number)
    → IsNatural u
    → IsNatural d
    → IsNatural t
    → split b';' (userinfo_text u d t)
      ≡ entry (codes "upload") u
        ∷ (b' ' ∷ entry (codes "download") d)
        ∷ (b' ' ∷ entry (codes "total") t)
        ∷ []
split-userinfo_text u d t hu hd ht =
    split_at_sep b';' (entry (codes "upload") u) _ (entry-Lacks (codes "upload") u upload-IsName hu)
    ∙ ap (λ r. entry (codes "upload") u ∷ r)
        (split_at_sep b';' (b' ' ∷ entry (codes "download") d) _
            (omega arith, entry-Lacks (codes "download") d download-IsName hd)
          ∙ ap (λ r. (b' ' ∷ entry (codes "download") d) ∷ r)
              (split_whole b';' (b' ' ∷ entry (codes "total") t)
                (omega arith, entry-Lacks (codes "total") t total-IsName ht)))

abbrev three_entries : (u d t : Number) → Object Number
three_entries u d t = put (codes "total") t (put (codes "download") d (put (codes "upload") u []))

read_back :
    (u d t : Number)
    → userinfo_of (three_entries u d t) ≡ record { upload = u; download = d; total = t }
unfolding lookup put text_eq
read_back u d t = refl

module _ (read : Text → Number) (read-print : (x : Number) → IsNatural x → read (print x) ≡ x) where
  set_pair-entry :
      (kv : Object Number) (name : Text) (x : Number)
      → IsName name
      → IsNatural x
      → set_pair read kv (split b'=' (entry name x)) ≡ put name x kv
  set_pair-entry kv [] x (ne, _) hx = absurd (ne refl)
  set_pair-entry kv (c ∷ name) x (ne, (hs, (he, hl))) hx =
      let value =
        split_whole b'=' (print x) (digits-Lacks b'=' (print x) (omega arith) (print-All x hx)) in
      let solid = trim_of_IsSolid (print x) (digits-IsSolid (print x) (print-All x hx)) in
      rw (split_at_sep b'=' (c ∷ name) (print x) he, value)
        (rw (trim_of_IsSolid (c ∷ name) hs, solid, read-print x hx)
          (ground (arith, print-ne-nil x hx)))

  part-entry :
      (kv : Object Number) (name : Text) (x : Number)
      → IsName name
      → IsNatural x
      → set_pair read kv (split b'=' (trim (entry name x))) ≡ put name x kv
  part-entry kv name x h hx =
      ap (λ p. set_pair read kv (split b'=' p))
        (trim_of_IsSolid (entry name x) (entry-IsSolid name x h hx))
      ∙ set_pair-entry kv name x h hx

  spaced_part-entry :
      (kv : Object Number) (name : Text) (x : Number)
      → IsName name
      → IsNatural x
      → set_pair read kv (split b'=' (trim (b' ' ∷ entry name x))) ≡ put name x kv
  unfolding is_space
  spaced_part-entry kv name x h hx =
      ap (λ p. set_pair read kv (split b'=' p)) (trim-cons b' ' (entry name x) refl)
      ∙ part-entry kv name x h hx

  set_parts-entries :
      (u d t : Number)
      → IsNatural u
      → IsNatural d
      → IsNatural t
      → set_parts read [] (
          entry (codes "upload") u
          ∷ (b' ' ∷ entry (codes "download") d)
          ∷ (b' ' ∷ entry (codes "total") t)
          ∷ [])
        ≡ three_entries u d t
  unfolding set_parts
  set_parts-entries u d t hu hd ht =
      let second = b' ' ∷ entry (codes "download") d in
      let third = b' ' ∷ entry (codes "total") t in
      ap (λ kv. set_parts read kv (second ∷ third ∷ []))
        (part-entry [] (codes "upload") u upload-IsName hu)
      ∙ ap (λ kv. set_parts read kv (third ∷ []))
          (spaced_part-entry _ (codes "download") d download-IsName hd)
      ∙ spaced_part-entry _ (codes "total") t total-IsName ht

  -- The header `upload=U; download=D; total=T` of three natural numbers is read as these numbers, if
  -- `Number` reads every natural number as it is printed.
  pub parse_userinfo-userinfo_text :
      (u d t : Number)
      → IsNatural u
      → IsNatural d
      → IsNatural t
      → parse_userinfo read (userinfo_text u d t) ≡ record { upload = u; download = d; total = t }
  unfolding parse_userinfo
  parse_userinfo-userinfo_text u d t hu hd ht =
      ap (λ parts. userinfo_of (set_parts read [] parts)) (split-userinfo_text u d t hu hd ht)
      ∙ ap userinfo_of (set_parts-entries u d t hu hd ht)
      ∙ read_back u d t
