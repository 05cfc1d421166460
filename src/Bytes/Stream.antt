-- ===== src/Bytes/Stream.antt =====
-- What is sent from a buffer and read back from the stream.
use bwctl.Prelude.{
  ℕ, zero, suc, ◌+◌, ◌-◌, ◌<◌, ◌≤◌, ◌≡◌, refl, ap, some, List, [], ◌∷◌, ◌++◌, ◌∙◌, arith, length,
  take, drop,
}
use bwctl.Bytes.{Buffer, nth, put, sub, split}

split-sub :
    (n off : ℕ) (buf : Buffer) (rest : List ℕ)
    → split n (sub off n buf ++ rest) ≡ some (sub off n buf, rest)
unfolding split
split-sub zero off buf rest = refl
split-sub (suc n) off buf rest = rw (split-sub n (suc off) buf rest) refl

pub split-append :
    (bytes rest : List ℕ) (n : ℕ) → length bytes ≡ n → split n (bytes ++ rest) ≡ some (bytes, rest)
unfolding split
split-append [] rest zero e = refl
split-append [] rest (suc n) e = absurd (omega arith)
split-append (b ∷ bytes) rest zero e = absurd (omega arith)
split-append (b ∷ bytes) rest (suc n) e = rw (split-append bytes rest n (omega arith)) refl

-- Bytes that are all there come back from the positions that they were put at.
sub_shift :
    (n off : ℕ) (b : ℕ) (bytes : List ℕ) → sub (suc off) n (nth (b ∷ bytes)) ≡ sub off n (nth bytes)
sub_shift zero off b bytes = refl
sub_shift (suc n) off b bytes = ap (λ l. nth bytes off ∷ l) (sub_shift n (suc off) b bytes)

pub sub-nth : (bytes : List ℕ) (n : ℕ) → length bytes ≡ n → sub 0 n (nth bytes) ≡ bytes
sub-nth [] zero e = refl
sub-nth [] (suc n) e = absurd (omega arith)
sub-nth (b ∷ bytes) zero e = absurd (omega arith)
sub-nth (b ∷ bytes) (suc n) e =
    ap (λ l. b ∷ l) (rw (sub_shift n 0 b bytes) (sub-nth bytes n (omega arith)))

-- A buffer's bytes are as many as were asked for, each of its place.
pub length-sub : (n off : ℕ) (buf : Buffer) → length (sub off n buf) ≡ n
length-sub zero off buf = refl
length-sub (suc n) off buf = ap suc (length-sub n (suc off) buf)

nth-sub : (n off i : ℕ) (buf : Buffer) → i < n → nth (sub off n buf) i ≡ buf (off + i)
nth-sub zero off i buf h = absurd (omega arith)
nth-sub (suc n) off zero buf h = ap buf (omega arith)
nth-sub (suc n) off (suc i) buf h = nth-sub n (suc off) i buf (omega arith) ∙ ap buf (omega arith)

sub_ext :
    (n off : ℕ) (f g : Buffer)
    → ((i : ℕ) → off ≤ i → i < off + n → f i ≡ g i)
    → sub off n f ≡ sub off n g
sub_ext zero off f g h = refl
sub_ext (suc n) off f g h =
    rw (h off (omega arith) (omega arith))
      (ap (λ l. g off ∷ l) (sub_ext n (suc off) f g λ i low high. h i (omega arith) (omega arith)))

put_inside : (n i : ℕ) (bytes : List ℕ) (buf : Buffer) → i < n → put 0 n bytes buf i ≡ nth bytes i
put_inside n i bytes buf h = ground arith

-- The first bytes of a block of sixteen that was sent and received in another buffer.
pub sub-block :
    (bytes : List ℕ) (f g : Buffer)
    → length bytes ≤ 16
    → sub 0 (length bytes) (put 0 16 (sub 0 16 (put 0 (length bytes) bytes f)) g) ≡ bytes
sub-block bytes f g h =
    let block = put 0 (length bytes) bytes f in
    sub_ext (length bytes) 0 (put 0 16 (sub 0 16 block) g) (nth bytes) (λ i low high.
      put_inside 16 i (sub 0 16 block) g (omega arith)
      ∙ nth-sub 16 0 i block (omega arith)
      ∙ ap block (omega arith)
      ∙ put_inside (length bytes) i bytes f (omega arith))
    ∙ sub-nth bytes (length bytes) refl

-- A stream in two parts.
pub take-append-drop : (n : ℕ) (bytes : List ℕ) → take n bytes ++ drop n bytes ≡ bytes
take-append-drop zero bytes = refl
take-append-drop (suc n) [] = refl
take-append-drop (suc n) (b ∷ bytes) = ap (λ l. b ∷ l) (take-append-drop n bytes)

pub length-take : (n : ℕ) (bytes : List ℕ) → n ≤ length bytes → length (take n bytes) ≡ n
length-take zero bytes h = refl
length-take (suc n) [] h = absurd (omega arith)
length-take (suc n) (b ∷ bytes) h = ap suc (length-take n bytes (omega arith))

pub length-drop : (n : ℕ) (bytes : List ℕ) → length (drop n bytes) ≡ length bytes - n
length-drop zero bytes = omega arith
length-drop (suc n) [] = omega arith
length-drop (suc n) (b ∷ bytes) = length-drop n bytes ∙ omega arith
