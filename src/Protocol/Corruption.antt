-- ===== src/Protocol/Corruption.antt =====
-- What `Packet::deserialize` can notice of a byte that changed on the way.
use zero_latency_yolo.Base.{
  ℕ, suc, ◌+◌, ◌-◌, ◌≤◌, ◌<◌, ◌≡◌, ◌≢◌, refl, sym, ap, ap₂, ◌∙◌, List, [], ◌∷◌, ◌++◌, some, length,
  take, drop, set, arith, IsBytes, All-take, All-drop, All-set, All-append, length-take,
  length-drop, length-set, take-set, take-set_le, drop-set_lt, drop-set_add, set-append_left,
  set-append_right, eq_of_cuts, append_cancel_left, append_cancel_right, append_assoc,
  length-append, dec_lt,
}
use zero_latency_yolo.Wire.{le, from_le, write_at}
use zero_latency_yolo.Wire.Laws.{le-from_le}
use zero_latency_yolo.Wire.Reader.{get_bytes, get_le}
use zero_latency_yolo.Crc.{calculate_crc16}
use zero_latency_yolo.Crc.Detect.{calculate_crc16-set}
use zero_latency_yolo.Protocol.{Abi, Packet, ok, magic_number}
use zero_latency_yolo.Protocol.Serialize.{checksum_of}
use zero_latency_yolo.Protocol.Deserialize.{
  PacketHeader, read_header, recomputed, is_valid_header, deserialize_with, deserialize,
}

-- The buffer in four parts: the two bytes that the checksum leaves out, the other twenty of the
-- header, of which the last two are the checksum, and the body.
abbrev lead : List ℕ → List ℕ
lead bytes = take 2 bytes

abbrev covered : List ℕ → List ℕ
covered bytes = take 18 (drop 2 bytes)

abbrev sealed : List ℕ → List ℕ
sealed bytes = take 2 (drop 18 (drop 2 bytes))

abbrev tail_of : List ℕ → List ℕ
tail_of bytes = drop 2 (drop 18 (drop 2 bytes))

-- What acceptance says of them.
record Accepted (bytes : List ℕ) : Type 0 where
  long : 22 ≤ length bytes
  magic : from_le (lead bytes ++ take 2 (covered bytes)) ≡ magic_number
  checksum : calculate_crc16 (covered bytes ++ (0 ∷ (0 ∷ tail_of bytes))) ≡ from_le (sealed bytes)

deserialize_checks :
    (abi : Abi) (q : Packet) (bytes body : List ℕ) (h : PacketHeader)
    → read_header bytes ≡ some (h, body)
    → (deserialize abi q bytes).1 ≡ ok
    → (h.magic ≡ magic_number) × (recomputed bytes ≡ h.checksum)
unfolding deserialize deserialize_with is_valid_header
deserialize_checks abi q bytes body h read e = ground (arith, read)

deserialize_of_long :
    (abi : Abi) (q : Packet) (bytes : List ℕ)
    → 22 ≤ length bytes
    → (deserialize abi q bytes).1 ≡ ok
    → Accepted bytes
unfolding read_header get_le get_bytes recomputed checksum_of write_at from_le
deserialize_of_long abi q
      (b0 ∷ b1 ∷ b2 ∷ b3 ∷ b4 ∷ b5 ∷ b6 ∷ b7 ∷ b8 ∷ b9 ∷ b10 ∷ b11 ∷ b12 ∷ b13 ∷ b14 ∷ b15 ∷ b16
        ∷ b17 ∷ b18 ∷ b19 ∷ b20 ∷ b21 ∷ rest)
      h e =
    let (magic, sum) =
      deserialize_checks abi q
        (b0 ∷ b1 ∷ b2 ∷ b3 ∷ b4 ∷ b5 ∷ b6 ∷ b7 ∷ b8 ∷ b9 ∷ b10 ∷ b11 ∷ b12 ∷ b13 ∷ b14 ∷ b15 ∷ b16
          ∷ b17 ∷ b18 ∷ b19 ∷ b20 ∷ b21 ∷ rest)
        _ _ refl e in
    record { long = h; magic = magic; checksum = sum }
deserialize_of_long abi q bytes h e = absurd (omega arith)

accepted_long :
    (abi : Abi) (q : Packet) (bytes : List ℕ) → (deserialize abi q bytes).1 ≡ ok → 22 ≤ length bytes
unfolding deserialize
accepted_long abi q bytes e = ground arith

deserialize-Accepted :
    (abi : Abi) (q : Packet) (bytes : List ℕ) → (deserialize abi q bytes).1 ≡ ok → Accepted bytes
deserialize-Accepted abi q bytes e = deserialize_of_long abi q bytes (accepted_long abi q bytes e) e

from_le_injective :
    (xs ys : List ℕ)
    → length xs ≡ length ys
    → IsBytes xs
    → IsBytes ys
    → from_le xs ≡ from_le ys
    → xs ≡ ys
from_le_injective xs ys l hx hy e = sym (le-from_le xs hx) ∙ ap₂ le l e ∙ le-from_le ys hy

parts_eq :
    (xs ys : List ℕ)
    → lead xs ≡ lead ys
    → covered xs ≡ covered ys
    → sealed xs ≡ sealed ys
    → tail_of xs ≡ tail_of ys
    → xs ≡ ys
parts_eq xs ys a b c d = eq_of_cuts 2 xs ys a (
    eq_of_cuts 18 (drop 2 xs) (drop 2 ys) b
      (eq_of_cuts 2 (drop 18 (drop 2 xs)) (drop 18 (drop 2 ys)) c d))

-- What the checksum covers, with zeros for the checksum itself.
abbrev zeroed : List ℕ → List ℕ → List ℕ
zeroed head body = head ++ (0 ∷ (0 ∷ body))

zeroed-IsBytes : (head body : List ℕ) → IsBytes head → IsBytes body → IsBytes (zeroed head body)
zeroed-IsBytes head body h k =
    All-append (λ b. b < 256) head (0 ∷ (0 ∷ body)) h (omega arith, (omega arith, k))

module _ (bytes : List ℕ) (v : ℕ) (all : IsBytes bytes) (small : v < 256) (a : Accepted bytes) where
  abbrev behind : List ℕ
  behind = drop 2 bytes

  abbrev changed : ℕ → List ℕ
  changed i = set bytes i v

  behind-IsBytes : IsBytes behind
  behind-IsBytes = All-drop (λ b. b < 256) 2 bytes all

  changed-IsBytes : (i : ℕ) → IsBytes (changed i)
  changed-IsBytes i = All-set (λ b. b < 256) bytes i v small all

  covered-IsBytes : IsBytes (covered bytes)
  covered-IsBytes = All-take (λ b. b < 256) 18 behind behind-IsBytes

  tail-IsBytes : IsBytes (tail_of bytes)
  tail-IsBytes =
      All-drop (λ b. b < 256) 2 (drop 18 behind) (All-drop (λ b. b < 256) 18 behind behind-IsBytes)

  length-covered : length (covered bytes) ≡ 18
  length-covered = omega (arith, length-take 18 behind, length-drop 2 bytes, a.long)

  -- The first two bytes are pinned by the magic number.
  change_lead : (i : ℕ) → i < 2 → Accepted (changed i) → changed i ≡ bytes
  change_lead i h b =
      parts_eq (changed i) bytes front (ap (take 18) back) (ap (λ d. take 2 (drop 18 d)) back)
        (ap (λ d. drop 2 (drop 18 d)) back)
    where
      back : drop 2 (changed i) ≡ behind
      back = drop-set_lt 2 bytes i v h

      same_length : length (lead (changed i)) ≡ length (lead bytes)
      same_length =
          omega (arith, length-take 2 (changed i), length-take 2 bytes, length-set bytes i v)

      word : List ℕ → List ℕ
      word bs = lead bs ++ take 2 (covered bytes)

      word-IsBytes : (bs : List ℕ) → IsBytes bs → IsBytes (word bs)
      word-IsBytes bs h =
          All-append (λ b. b < 256) (lead bs) (take 2 (covered bytes))
            (All-take (λ b. b < 256) 2 bs h)
            (All-take (λ b. b < 256) 2 (covered bytes) covered-IsBytes)

      same_word : from_le (word (changed i)) ≡ from_le (word bytes)
      same_word =
          ap (λ d. from_le (lead (changed i) ++ take 2 (take 18 d))) (sym back)
          ∙ b.magic
          ∙ sym a.magic

      front : lead (changed i) ≡ lead bytes
      front =
          append_cancel_right (lead (changed i)) (lead bytes) (take 2 (covered bytes)) same_length (
            from_le_injective (word (changed i)) (word bytes)
              (omega (
                arith,
                length-append (lead (changed i)) (take 2 (covered bytes)),
                length-append (lead bytes) (take 2 (covered bytes)),
                same_length,
              ))
              (word-IsBytes (changed i) (changed-IsBytes i)) (word-IsBytes bytes all) same_word)

  -- The rest of the header and the body are covered by the checksum.
  change_covered : (i j : ℕ) → 2 + j ≡ i → j < 18 → Accepted (changed i) → changed i ≡ bytes
  change_covered i j e h b =
      parts_eq (changed i) bytes (take-set_le 2 bytes i v (omega arith)) (written ∙ kept)
        (ap (take 2) after) (ap (drop 2) after)
    where
      back : drop 2 (changed i) ≡ set behind j v
      back = drop-set_add 2 bytes j i v e

      written : covered (changed i) ≡ set (covered bytes) j v
      written = ap (take 18) back ∙ take-set 18 behind j v

      after : drop 18 (drop 2 (changed i)) ≡ drop 18 behind
      after = ap (drop 18) back ∙ drop-set_lt 18 behind j v h

      moved :
          zeroed (covered (changed i)) (tail_of (changed i))
          ≡ set (zeroed (covered bytes) (tail_of bytes)) j v
      moved =
          ap₂ zeroed written (ap (drop 2) after)
          ∙ sym (set-append_left (covered bytes) _ j v (omega (arith, length-covered)))

      unchanged :
          set (zeroed (covered bytes) (tail_of bytes)) j v ≡ zeroed (covered bytes) (tail_of bytes)
      unchanged =
          calculate_crc16-set _ j v (zeroed-IsBytes _ _ covered-IsBytes tail-IsBytes) small (
            ap calculate_crc16 (sym moved)
            ∙ b.checksum
            ∙ ap (λ d. from_le (take 2 d)) after
            ∙ sym a.checksum)

      kept : set (covered bytes) j v ≡ covered bytes
      kept =
          append_cancel_right (set (covered bytes) j v) (covered bytes) (0 ∷ (0 ∷ tail_of bytes))
            (length-set (covered bytes) j v)
            (sym (set-append_left (covered bytes) _ j v (omega (arith, length-covered)))
              ∙ unchanged)

  -- The checksum is compared with what it covers, which is as before.
  change_sealed : (i j : ℕ) → 20 + j ≡ i → j < 2 → Accepted (changed i) → changed i ≡ bytes
  change_sealed i j e h b =
      parts_eq (changed i) bytes (take-set_le 2 bytes i v (omega arith)) header seal rest
    where
      back : drop 2 (changed i) ≡ set behind (18 + j) v
      back = drop-set_add 2 bytes (18 + j) i v (omega arith)

      header : covered (changed i) ≡ covered bytes
      header = ap (take 18) back ∙ take-set_le 18 behind (18 + j) v (omega arith)

      after : drop 18 (drop 2 (changed i)) ≡ set (drop 18 behind) j v
      after = ap (drop 18) back ∙ drop-set_add 18 behind j (18 + j) v refl

      rest : tail_of (changed i) ≡ tail_of bytes
      rest = ap (drop 2) after ∙ drop-set_lt 2 (drop 18 behind) j v h

      sealed-IsBytes : (bs : List ℕ) → IsBytes bs → IsBytes (sealed bs)
      sealed-IsBytes bs h =
          All-take (λ b. b < 256) 2 _
            (All-drop (λ b. b < 256) 18 _ (All-drop (λ b. b < 256) 2 bs h))

      seal : sealed (changed i) ≡ sealed bytes
      seal =
          from_le_injective (sealed (changed i)) (sealed bytes)
            (ap length (ap (take 2) after ∙ take-set 2 (drop 18 behind) j v)
              ∙ length-set (sealed bytes) j v)
            (sealed-IsBytes (changed i) (changed-IsBytes i)) (sealed-IsBytes bytes all)
            (sym b.checksum ∙ ap calculate_crc16 (ap₂ zeroed header rest) ∙ a.checksum)

  change_tail : (i j : ℕ) → 22 + j ≡ i → Accepted (changed i) → changed i ≡ bytes
  change_tail i j e b =
      parts_eq (changed i) bytes (take-set_le 2 bytes i v (omega arith)) header seal (rest ∙ kept)
    where
      back : drop 2 (changed i) ≡ set behind (20 + j) v
      back = drop-set_add 2 bytes (20 + j) i v (omega arith)

      header : covered (changed i) ≡ covered bytes
      header = ap (take 18) back ∙ take-set_le 18 behind (20 + j) v (omega arith)

      after : drop 18 (drop 2 (changed i)) ≡ set (drop 18 behind) (2 + j) v
      after = ap (drop 18) back ∙ drop-set_add 18 behind (2 + j) (20 + j) v (omega arith)

      seal : sealed (changed i) ≡ sealed bytes
      seal = ap (take 2) after ∙ take-set_le 2 (drop 18 behind) (2 + j) v (omega arith)

      rest : tail_of (changed i) ≡ set (tail_of bytes) j v
      rest = ap (drop 2) after ∙ drop-set_add 2 (drop 18 behind) j (2 + j) v refl

      shifted :
          zeroed (covered bytes) (set (tail_of bytes) j v)
          ≡ set (zeroed (covered bytes) (tail_of bytes)) (20 + j) v
      shifted = sym (
          set-append_right (covered bytes) (0 ∷ (0 ∷ tail_of bytes)) (suc (suc j)) (20 + j) v
            (omega (arith, length-covered)))

      kept : set (tail_of bytes) j v ≡ tail_of bytes
      kept = append_cancel_left (covered bytes ++ (0 ∷ (0 ∷ []))) _ _ (
          append_assoc (covered bytes) (0 ∷ (0 ∷ [])) _
          ∙ shifted
          ∙ calculate_crc16-set _ (20 + j) v (zeroed-IsBytes _ _ covered-IsBytes tail-IsBytes) small
              (ap calculate_crc16 (sym shifted ∙ sym (ap₂ zeroed header rest))
                ∙ b.checksum
                ∙ ap from_le seal
                ∙ sym a.checksum)
          ∙ sym (append_assoc (covered bytes) (0 ∷ (0 ∷ [])) _))

  change_anywhere : (i : ℕ) → Accepted (changed i) → changed i ≡ bytes
  change_anywhere i b = elim (dec_lt i 2) [
    | yes h ↦ change_lead i h b
    | no h ↦ elim (dec_lt i 20) [
      | yes k ↦ change_covered i (i - 2) (omega arith) (omega arith) b
      | no k ↦ elim (dec_lt i 22) [
        | yes l ↦ change_sealed i (i - 20) (omega arith) (omega arith) b
        | no l ↦ change_tail i (i - 22) (omega arith) b
      ]
    ]
  ]

-- Take any bytes that some packet object accepts. If one of them, at any position of the header or
-- of the body, arrives as another value, then no packet object accepts the result.
pub deserialize-set :
    (abi : Abi) (q r : Packet) (bytes : List ℕ) (i v : ℕ)
    → IsBytes bytes
    → v < 256
    → (deserialize abi q bytes).1 ≡ ok
    → set bytes i v ≢ bytes
    → (deserialize abi r (set bytes i v)).1 ≢ ok
deserialize-set abi q r bytes i v all small sent differs received = differs (
    change_anywhere bytes v all small (deserialize-Accepted abi q bytes sent) i
      (deserialize-Accepted abi r (set bytes i v) received))
