-- ===== src/Classifier/Reparse.antt =====
-- Sorted entries of the flag map: still a map with the same lookups, and spelled out they parse back
-- into themselves (src/classifier/parser.rs, `build_sanitized_argv` of src/classifier/mod.rs).
use mathlib.Core.List.{append_assoc, append-nil}
use rch_mac.Base.{
  true, false, Option, none, some, Text, text_eq, text_eq_iff, Dict, get, IsDict, get-before,
  insert as put_entry, insert-fresh, ok, [], ◌∷◌, ◌++◌, All, ◌≡◌, refl, sym, ◌∙◌, subst, ap, arith,
  if◌then◌else◌,
}
use rch_mac.Base.Sort.{insert, sort_by, insert_cases}
use rch_mac.Classifier.Parser.{
  ParsedXcodebuildArgs, parse_from, takes_value, take_one, is_flag, put,
}
use rch_mac.Classifier.{spell, by_key}
use rch_mac.Classifier.Entries.{Spelt}

get-insert_sorted :
    (k j : Text) (v : Option Text) (m : Dict (Option Text))
    → get j m ≡ none
    → get k (insert by_key (j, v) m) ≡ (if text_eq j k then some v else get k m)
unfolding get
get-insert_sorted k j v [] h = unfold insert in refl
get-insert_sorted k j v ((i, w) ∷ m) h =
    let rest = get-insert_sorted k j v m in
    insert_cases (λ l. get k l ≡ (if text_eq j k then some v else get k ((i, w) ∷ m))) by_key (j, v)
      (i, w) m (λ _. refl)
      (λ _. ground (arith, rest, text_eq_iff i k, text_eq_iff j k, text_eq_iff i j))

insert_sorted-IsDict :
    (j : Text) (v : Option Text) (m : Dict (Option Text))
    → get j m ≡ none
    → IsDict m
    → IsDict (insert by_key (j, v) m)
unfolding get
insert_sorted-IsDict j v [] h d = unfold insert in (refl, tt)
insert_sorted-IsDict j v ((i, w) ∷ m) h d =
    let rest = insert_sorted-IsDict j v m in
    insert_cases IsDict by_key (j, v) (i, w) m (λ _. (h, d))
      (λ _. (
        ground (arith, get-insert_sorted i j v m, text_eq_iff i j, text_eq_iff j i),
        rest (ground arith) d.1,
      ))

-- Sorting keeps every lookup.
pub get-sort_by :
    (k : Text) (m : Dict (Option Text)) → IsDict m → get k (sort_by by_key m) ≡ get k m
unfolding sort_by get
get-sort_by k [] d = refl
get-sort_by k ((j, v) ∷ m) d =
    ground
      (arith, get-insert_sorted k j v (sort_by by_key m), get-sort_by j m d.1, get-sort_by k m d.1)

pub sort_by-IsDict : (m : Dict (Option Text)) → IsDict m → IsDict (sort_by by_key m)
unfolding sort_by
sort_by-IsDict [] d = tt
sort_by-IsDict ((j, v) ∷ m) d =
    insert_sorted-IsDict j v (sort_by by_key m) (get-sort_by j m d.1 ∙ d.0) (sort_by-IsDict m d.1)

-- An entry that the parser reads back: a flag, with a value only if it takes that one.
abbrev pub Readable : Text × Option Text → Type 0
Readable e = (is_flag e.0 ≡ true) × Spelt e

abbrev with_flags : Dict (Option Text) → ParsedXcodebuildArgs → ParsedXcodebuildArgs
with_flags m r = record r { flags = m }

take_one-flag :
    (k : Text) (r : ParsedXcodebuildArgs) → is_flag k ≡ true → take_one k r ≡ ok (put k none r)
unfolding take_one
take_one-flag k r h = ground arith

takes_value-flag : (k next : Text) → is_flag next ≡ true → takes_value k next ≡ false
unfolding takes_value
takes_value-flag k next h = ground arith

valueless_step :
    (k : Text) (v : Option Text) (i : Text) (m : Dict (Option Text)) (r : ParsedXcodebuildArgs)
    → is_flag k ≡ true
    → is_flag i ≡ true
    → parse_from (k ∷ spell ((i, v) ∷ m)) r ≡ parse_from (spell ((i, v) ∷ m)) (put k none r)
unfolding parse_from spell
valueless_step k none i m r h g = rw (takes_value-flag k i g, parse_from) (rw (take_one-flag k r h))
valueless_step k (some v) i m r h g =
    rw (takes_value-flag k i g, parse_from) (rw (take_one-flag k r h))

shift :
    (k : Text) (v : Option Text) (m es : Dict (Option Text))
    → IsDict (m ++ (k, v) ∷ es)
    → put_entry k v m ++ es ≡ m ++ (k, v) ∷ es
shift k v m es d = rw (insert-fresh k v m (get-before k v m es d)) (append_assoc m ((k, v) ∷ []) es)

-- The parser puts the entries that it reads behind those that it has.
pub parse_from-spell :
    (es : Dict (Option Text)) (r : ParsedXcodebuildArgs)
    → All Readable es
    → IsDict (r.flags ++ es)
    → parse_from (spell es) r ≡ ok (with_flags (r.flags ++ es) r)
unfolding parse_from spell
parse_from-spell [] r h d = rw append-nil
parse_from-spell ((k, none) ∷ []) r h d =
    rw (take_one-flag k r h.0.0, insert-fresh k none r.flags (get-before k none r.flags [] d))
parse_from-spell ((k, none) ∷ (i, v) ∷ m) r h d =
    let e = shift k none r.flags ((i, v) ∷ m) d in
    valueless_step k v i m r h.0.0 h.1.0.0
    ∙ parse_from-spell ((i, v) ∷ m) (put k none r) h.1 (subst IsDict (sym e) d)
    ∙ ap (λ w. ok (with_flags w r)) e
parse_from-spell ((k, some v) ∷ m) r h d =
    let e = shift k (some v) r.flags m d in
    rw (h.0.1, parse_from)
      (parse_from-spell m (put k (some v) r) h.1 (subst IsDict (sym e) d)
        ∙ ap (λ w. ok (with_flags w r)) e)
