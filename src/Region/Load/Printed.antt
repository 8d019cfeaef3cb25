-- ===== src/Region/Load/Printed.antt =====
-- Loading a file whose lines are `"first","last","region"`.
use report_api.Prelude.{
  ℕ, ◌≡◌, refl, sym, ap, ◌∙◌, false, not, Option, List, [], ◌∷◌, ◌++◌, map, append_assoc,
  append-nil, reverse, filter, filter-append, ◌==◌, All, All-append, Bool-cases, inl, inr,
}
use mathlib.Core.List.{reverse-append, reverse-reverse}
use report_api.Go.Returns.{returned}
use report_api.Go.Text.{Str, Bytes, codes, utf8}
use report_api.Go.Text.Trim.{trim_space, trim_left, is_space}
use report_api.Go.Text.Replace.{replace_all, replace_all-filter}
use report_api.Go.Text.Split.{split, before_first, IsFree, split-part, split-free}
use report_api.Region.Search.{Segment}
use report_api.Region.Load.{
  read_strings, address, segments_of_parts, segments_of_line, segments_of_lines, load_ips,
}

-- A line of such a file.
pub record Entry : Type 0 where
  pub first : Str
  pub last : Str
  pub region : Str

abbrev pub quoted : Str → Str
quoted part = 34 ∷ part ++ 34 ∷ []

-- The line without its end.
unfoldable pub printed : Entry → Str
printed x = quoted x.first ++ 44 ∷ (quoted x.last ++ 44 ∷ quoted x.region)

unfoldable pub printed_file : List Entry → Str
unfolding printed
printed_file [] = []
printed_file (x ∷ xs) = printed x ++ 10 ∷ printed_file xs

-- The text has no quote, no comma and no end of line.
abbrev pub IsPlain : Str → Type 0
IsPlain s = IsFree 34 s × IsFree 44 s × IsFree 10 s

abbrev pub IsPlainEntry : Entry → Type 0
IsPlainEntry x = IsPlain x.first × IsPlain x.last × IsPlain x.region

read_strings-line :
    (line s : Str)
    → IsFree 10 line
    → read_strings (line ++ 10 ∷ s) ≡ (line ++ 10 ∷ []) ∷ read_strings s
unfolding read_strings
read_strings-line [] s h = refl
read_strings-line (c ∷ line) s (h, hs) = rw (h, read_strings-line line s hs, before_first)

-- Spaces at the end are cut from a text between quotes.
trim_space-quoted : (body : Str) → trim_space (34 ∷ body ++ 34 ∷ 10 ∷ []) ≡ 34 ∷ body ++ 34 ∷ []
unfolding trim_space trim_left is_space
trim_space-quoted body =
    ap (λ t. reverse (trim_left t)) (reverse-append (34 ∷ body) (34 ∷ 10 ∷ []))
    ∙ ap reverse (sym (reverse-append (34 ∷ body) (34 ∷ [])))
    ∙ reverse-reverse (34 ∷ body ++ 34 ∷ [])

filter-free : (d : ℕ) (s : Str) → IsFree d s → filter (λ c. not (c == d)) s ≡ s
filter-free d [] h = refl
filter-free d (c ∷ s) (h, hs) = rw (h, filter-free d s hs)

filter-quoted : (s : Str) → IsFree 34 s → filter (λ c. not (c == 34)) (quoted s) ≡ s
filter-quoted s h =
    filter-append (λ c. not (c == 34)) s (34 ∷ []) ∙ rw (filter-free 34 s h, append-nil s)

-- The quotes are removed, and nothing else.
unquoted :
    (x : Entry)
    → IsPlainEntry x
    → replace_all (printed x) (codes "\"") [] ≡ x.first ++ 44 ∷ (x.last ++ 44 ∷ x.region)
unfolding printed
unquoted x (f, l, r) =
    replace_all-filter 34 (printed x)
    ∙ rw (
      filter-append (λ c. not (c == 34)) (quoted x.first)
          (44 ∷ (quoted x.last ++ 44 ∷ quoted x.region)),
      filter-append (λ c. not (c == 34)) (quoted x.last) (44 ∷ quoted x.region),
      filter-quoted x.first f.0,
      filter-quoted x.last l.0,
      filter-quoted x.region r.0,
    )

split-line :
    (x : Entry)
    → IsPlainEntry x
    → split 44 (x.first ++ 44 ∷ (x.last ++ 44 ∷ x.region)) ≡ x.first ∷ x.last ∷ x.region ∷ []
split-line x (f, l, r) = rw (
  split-part 44 x.first (x.last ++ 44 ∷ x.region) f.1,
  split-part 44 x.last x.region l.1,
  split-free 44 x.region r.1,
)

trim_space-printed : (x : Entry) → trim_space (printed x ++ 10 ∷ []) ≡ printed x
unfolding printed
trim_space-printed x =
    let body = x.first ++ 34 ∷ 44 ∷ 34 ∷ (x.last ++ 34 ∷ 44 ∷ 34 ∷ x.region) in
    ap trim_space (simp append_assoc) ∙ trim_space-quoted body ∙ simp append_assoc

quoted-IsFree : (s : Str) → IsFree 10 s → IsFree 10 (quoted s)
quoted-IsFree s h = (refl, All-append (λ c. (c == 10) ≡ false) s (34 ∷ []) h (refl, tt))

printed-IsFree : (x : Entry) → IsPlainEntry x → IsFree 10 (printed x)
unfolding printed
printed-IsFree x (f, l, r) =
    let free : ℕ → Type 0 = (λ c. (c == 10) ≡ false) in
    All-append free (quoted x.first) _ (quoted-IsFree x.first f.2) (
      refl,
      All-append free (quoted x.last) _ (quoted-IsFree x.last l.2)
          (refl, quoted-IsFree x.region r.2),
    )

-- There is always a last read.
read_strings-cons : (s : Str) → (l : Str) × (ls : List Str) × (read_strings s ≡ l ∷ ls)
unfolding read_strings
read_strings-cons [] = ([], [], refl)
read_strings-cons (c ∷ s) = elim (Bool-cases (c == 10)) [
  | inl e ↦ (10 ∷ [], read_strings s, rw (e, read_strings))
  | inr e ↦ let (l, ls, read) = read_strings-cons s in (c ∷ l, ls, rw (e, read, before_first))
]

module _ (parse_ip : Str → Option Bytes) where
  -- What the table holds for a line.
  abbrev pub segment_of : Entry → Segment
  segment_of x = record {
    s = address parse_ip x.first;
    e = address parse_ip x.last;
    v = utf8 x.region;
  }

  segments_of_line-printed :
      (x : Entry) → IsPlainEntry x → segments_of_line parse_ip (printed x) ≡ segment_of x ∷ []
  unfolding segments_of_line segments_of_parts
  segments_of_line-printed x h = rw (unquoted x h, split-line x h, segments_of_parts)

  segments_of_lines-cons :
      (l s : Str)
      → segments_of_lines parse_ip (l ∷ read_strings s)
        ≡ segments_of_line parse_ip (trim_space l) ++ segments_of_lines parse_ip (read_strings s)
  unfolding segments_of_lines
  segments_of_lines-cons l s =
      let (m, ls, read) = read_strings-cons s in rw (read, segments_of_lines)

  -- Loading a file of quoted lines yields one segment for each line, in order.
  pub load_ips-printed_file :
      (xs : List Entry)
      → All IsPlainEntry xs
      → load_ips parse_ip (returned (printed_file xs)) ≡ map segment_of xs
  unfolding load_ips printed_file segments_of_lines
  load_ips-printed_file [] h = refl
  load_ips-printed_file (x ∷ xs) (h, hs) =
      ap (segments_of_lines parse_ip)
        (read_strings-line (printed x) (printed_file xs) (printed-IsFree x h))
      ∙ segments_of_lines-cons (printed x ++ 10 ∷ []) (printed_file xs)
      ∙ rw (trim_space-printed x, segments_of_line-printed x h, load_ips-printed_file xs hs)
