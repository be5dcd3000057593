-- ===== src/ClientConfig/Lines.antt =====
-- Well-formed lines of a file of settings, as `loadClientConfig` of src/client/config.cpp reads them.
use zero_latency_yolo.Base.{
  ℕ, ◌<◌, ◌≡◌, ◌≢◌, refl, ap, ◌∙◌, Bool, true, false, not, List, [], ◌∷◌, ◌++◌, Option, none, some,
  map, append-nil, append_assoc, ◌==◌, ◌&&◌, ltb, arith, All, Option-cases, inl, inr,
}
use zero_latency_yolo.Base.Maybe.{◌>>=◌}
use zero_latency_yolo.ClientConfig.{ClientConfig, FloatText}
use zero_latency_yolo.ClientConfig.Save.{Line, comment, empty, setting, line_bytes, file_bytes}
use zero_latency_yolo.ClientConfig.Load.{
  lines_after, split_at_equals, is_blank, trim_left, trim_right, trim, set_option, read_assignment,
  read_line, read_lines, contents, load_client_config,
}

abbrev pub NoNewline : List ℕ → Type 0
NoNewline = All (λ c. c ≢ 10)

-- A text that stands on one line, with no blanks at its ends.
abbrev pub IsValue : List ℕ → Type 0
IsValue s = NoNewline s × (trim s ≡ s)

-- A key: some bytes above `#`, none of them `=`.
abbrev pub IsKey : List ℕ → Type 0
IsKey [] = ⊥
IsKey (c ∷ s) = (35 < c) × (c ≢ 61) × All (λ c. (35 < c) × (c ≢ 61)) s

abbrev pub IsComment : List ℕ → Type 0
IsComment [] = ⊥
IsComment (c ∷ s) = (c ≡ 35) × NoNewline s

abbrev pub IsLine : Line → Type 0
IsLine (comment text) = IsComment text
IsLine empty = Unit {0}
IsLine (setting key value) = IsKey key × IsValue value

-- The same as tests.
abbrev pub are_key_bytes : List ℕ → Bool
are_key_bytes [] = true
are_key_bytes (c ∷ s) = ltb 35 c && not (c == 61) && are_key_bytes s

abbrev pub has_no_newline : List ℕ → Bool
has_no_newline [] = true
has_no_newline (c ∷ s) = not (c == 10) && has_no_newline s

are_key_bytes_lem : (s : List ℕ) → are_key_bytes s ≡ true → All (λ c. (35 < c) × (c ≢ 61)) s
are_key_bytes_lem [] h = tt
are_key_bytes_lem (c ∷ s) h =
    ((ground (arith, h), ground (arith, h)), are_key_bytes_lem s (ground (arith, h)))

pub has_no_newline_lem : (s : List ℕ) → has_no_newline s ≡ true → NoNewline s
has_no_newline_lem [] h = tt
has_no_newline_lem (c ∷ s) h = (ground (arith, h), has_no_newline_lem s (ground (arith, h)))

-- The keys and comments of some lines are well formed.
abbrev pub are_lines : List Line → Bool
are_lines [] = true
are_lines (empty ∷ ls) = are_lines ls
are_lines (comment [] ∷ ls) = false
are_lines (comment (c ∷ s) ∷ ls) = c == 35 && has_no_newline s && are_lines ls
are_lines (setting [] value ∷ ls) = false
are_lines (setting (c ∷ s) value ∷ ls) = are_key_bytes (c ∷ s) && are_lines ls

-- The values that some lines set.
abbrev pub values : List Line → List (List ℕ)
values [] = []
values (empty ∷ ls) = values ls
values (comment text ∷ ls) = values ls
values (setting key value ∷ ls) = value ∷ values ls

pub All-IsLine : (ls : List Line) → are_lines ls ≡ true → All IsValue (values ls) → All IsLine ls
All-IsLine [] h v = tt
All-IsLine (empty ∷ ls) h v = (tt, All-IsLine ls h v)
All-IsLine (comment [] ∷ ls) h v = absurd (ground (arith, h))
All-IsLine (comment (c ∷ s) ∷ ls) h v = (
  (ground (arith, h), has_no_newline_lem s (ground (arith, h))),
  All-IsLine ls (ground (arith, h)) v,
)
All-IsLine (setting [] value ∷ ls) h v = absurd (ground (arith, h))
All-IsLine (setting (c ∷ s) value ∷ ls) h v =
    let all = are_key_bytes_lem (c ∷ s) (ground (arith, h)) in
    (((all.0.0, all.0.1, all.1), v.0), All-IsLine ls (ground (arith, h)) v.1)

lines_after-newline :
    (read l rest : List ℕ)
    → NoNewline l
    → lines_after read (l ++ 10 ∷ rest) ≡ (read ++ l) ∷ lines_after [] rest
unfolding lines_after
lines_after-newline read [] rest h = rw (append-nil read) refl
lines_after-newline read (c ∷ l) rest h =
    let other : (c == 10) ≡ false = ground (arith, h.0) in
    rw other (
      lines_after-newline (read ++ (c ∷ [])) l rest h.1
      ∙ ap (λ whole. whole ∷ lines_after [] rest) (append_assoc read (c ∷ []) l))

NoNewline-key : (s : List ℕ) → All (λ c. (35 < c) × (c ≢ 61)) s → NoNewline s
NoNewline-key [] h = tt
NoNewline-key (c ∷ s) h = (omega (arith, h.0.0), NoNewline-key s h.1)

NoNewline-append : (r s : List ℕ) → NoNewline r → NoNewline s → NoNewline (r ++ s)
NoNewline-append [] s h k = k
NoNewline-append (c ∷ r) s h k = (h.0, NoNewline-append r s h.1 k)

NoNewline-line_bytes : (l : Line) → IsLine l → NoNewline (line_bytes l)
unfolding line_bytes
NoNewline-line_bytes (comment []) h = tt
NoNewline-line_bytes (comment (c ∷ s)) h = (omega (arith, h.0), h.1)
NoNewline-line_bytes empty h = tt
NoNewline-line_bytes (setting [] value) h = absurd h.0
NoNewline-line_bytes (setting (c ∷ s) value) h = (
  omega (arith, h.0.0),
  NoNewline-append s (61 ∷ value) (NoNewline-key s h.0.2) (omega arith, h.1.0),
)

lines_after-file_bytes :
    (ls : List Line) → All IsLine ls → lines_after [] (file_bytes ls) ≡ map line_bytes ls
unfolding file_bytes
lines_after-file_bytes [] h = unfold lines_after in refl
lines_after-file_bytes (l ∷ ls) h =
    lines_after-newline [] (line_bytes l) (file_bytes ls) (NoNewline-line_bytes l h.0)
    ∙ ap (◌∷◌ (line_bytes l)) (lines_after-file_bytes ls h.1)

split_at_equals-key :
    (key value : List ℕ)
    → All (λ c. (35 < c) × (c ≢ 61)) key
    → split_at_equals (key ++ 61 ∷ value) ≡ some (key, value)
unfolding split_at_equals
split_at_equals-key [] value h = refl
split_at_equals-key (c ∷ key) value h =
    let other : (c == 61) ≡ false = ground (arith, h.0.1) in
    rw (other, split_at_equals-key key value h.1) refl

-- A text with no blank is left as it is.
trim_right-solid : (s : List ℕ) → All (λ c. 35 < c) s → trim_right s ≡ s
unfolding trim_right
trim_right-solid [] h = refl
trim_right-solid (c ∷ s) h = ground (arith, h.0, trim_right-solid s h.1)

pub trim-solid : (s : List ℕ) → All (λ c. 35 < c) s → trim s ≡ s
unfolding trim trim_left
trim-solid [] h = unfold trim_right in refl
trim-solid (c ∷ s) h =
    let solid : is_blank c ≡ false = ground (arith, h.0) in rw solid (trim_right-solid (c ∷ s) h)

solid_key : (s : List ℕ) → All (λ c. (35 < c) × (c ≢ 61)) s → All (λ c. 35 < c) s
solid_key [] h = tt
solid_key (c ∷ s) h = (h.0.0, solid_key s h.1)

-- What a line does, apart from its text.
unfoldable pub apply : FloatText → ClientConfig → Line → Option ClientConfig
apply ft c (comment text) = some c
apply ft c empty = some c
apply ft c (setting key value) = set_option ft c key value

read_line-line_bytes :
    (ft : FloatText) (c : ClientConfig) (l : Line)
    → IsLine l
    → read_line ft c (line_bytes l) ≡ apply ft c l
unfolding apply line_bytes read_line read_assignment
read_line-line_bytes ft c (comment []) h = absurd h
read_line-line_bytes ft c (comment (b ∷ s)) h = ground (arith, h.0)
read_line-line_bytes ft c empty h = refl
read_line-line_bytes ft c (setting [] value) h = absurd h.0
read_line-line_bytes ft c (setting (b ∷ key) value) h =
    let other : (b == 35) ≡ false = ground (arith, h.0.0) in
    let all : All (λ c. (35 < c) × (c ≢ 61)) (b ∷ key) = ((h.0.0, h.0.1), h.0.2) in
    rw
      (
        other,
        split_at_equals-key (b ∷ key) value all,
        read_assignment,
        trim-solid (b ∷ key) (solid_key (b ∷ key) all),
        h.1.1,
      )
      refl

-- What lines do, one after the other, where none of them throws.
unfoldable pub apply_all : FloatText → ClientConfig → List Line → Option ClientConfig
apply_all ft c [] = some c
apply_all ft c (l ∷ ls) = apply ft c l >>= λ c'. apply_all ft c' ls

read_lines-line_bytes :
    (ft : FloatText) (c c' : ClientConfig) (ls : List Line)
    → All IsLine ls
    → apply_all ft c ls ≡ some c'
    → read_lines ft c (map line_bytes ls) ≡ (c', true)
unfolding read_lines apply_all
read_lines-line_bytes ft c c' [] h e = ground (arith, e)
read_lines-line_bytes ft c c' (l ∷ ls) h e = elim (Option-cases (apply ft c l)) [
  | inl fails ↦ let no : ⊥ = ground (arith, fails, e) in elim no [ ]
  | inr (d, sets) ↦
      ground (arith, sets, e, read_line-line_bytes ft c l h.0, read_lines-line_bytes ft d c' ls h.1)
]

-- A file of well-formed lines does what its lines do, where none of them throws.
pub load-file_bytes :
    (ft : FloatText) (c c' : ClientConfig) (ls : List Line)
    → All IsLine ls
    → apply_all ft c ls ≡ some c'
    → load_client_config ft (contents (file_bytes ls)) c ≡ ((c', true), none)
unfolding load_client_config
load-file_bytes ft c c' ls h e =
    rw (lines_after-file_bytes ls h, read_lines-line_bytes ft c c' ls h e) refl

read_lines-throws :
    (ft : FloatText) (c : ClientConfig) (ls : List Line)
    → All IsLine ls
    → apply_all ft c ls ≡ none
    → (read_lines ft c (map line_bytes ls)).1 ≡ false
unfolding read_lines apply_all
read_lines-throws ft c [] h e = cc
read_lines-throws ft c (l ∷ ls) h e = elim (Option-cases (apply ft c l)) [
  | inl fails ↦ ground (arith, fails, e, read_line-line_bytes ft c l h.0)
  | inr (d, sets) ↦
      ground (arith, sets, e, read_line-line_bytes ft c l h.0, read_lines-throws ft d ls h.1)
]

-- A file of well-formed lines of which one throws is refused.
pub load-file_bytes_throws :
    (ft : FloatText) (c : ClientConfig) (ls : List Line)
    → All IsLine ls
    → apply_all ft c ls ≡ none
    → (load_client_config ft (contents (file_bytes ls)) c).0.1 ≡ false
unfolding load_client_config
load-file_bytes_throws ft c ls h e =
    rw (lines_after-file_bytes ls h) (read_lines-throws ft c ls h e)
