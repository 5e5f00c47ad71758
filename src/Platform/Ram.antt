-- ===== src/Platform/Ram.antt =====
-- A device in memory, which meets the laws of a platform. The tests and witnesses run on it.
use test_fs.Prelude.{
  ℕ, zero, suc, ◌+◌, ◌%◌, ◌^◌, ◌<◌, ◌≡◌, ◌≢◌, refl, sym, ◌∙◌, ap, fun_ext, List, [], ◌∷◌, ◌++◌,
  arith, eq→==, ne→==, ◌==◌, if◌then◌else◌, length, get_or, take, drop, get_or-take, list_ext,
}
use native.Mathlib.Nat.{mod-lt, one-le-pow}
use test_fs.Bytes.{Byte, zero_bytes}
use test_fs.Bytes.Laws.{length-zero_bytes}
use test_fs.Platform.{Platform}

-- Bytes by block and offset.
abbrev pub Ram : Type 0
Ram = ℕ → ℕ → Byte

-- The bytes of one block from offset `o` on.
unfoldable pub bytes_from : (ℕ → Byte) → (rounds o : ℕ) → List Byte
bytes_from f zero o = []
bytes_from f (suc n) o = f o ∷ bytes_from f n (o + 1)

unfoldable pub read : Ram → (start nr : ℕ) → List Byte
unfolding bytes_from
read d start zero = []
read d start (suc nr) = bytes_from (d start) 512 0 ++ read d (start + 1) nr

unfoldable pub write_one : Ram → ℕ → List Byte → Ram
write_one d start b n o = if n == start then get_or b o 0 else d n o

unfoldable pub write : Ram → (start nr : ℕ) → List Byte → Ram
unfolding write_one
write d start zero b = d
write d start (suc nr) b = write (write_one d start (take 512 b)) (start + 1) nr (drop 512 b)

length-bytes_from : (f : ℕ → Byte) (n o : ℕ) → length (bytes_from f n o) ≡ n
unfolding bytes_from
length-bytes_from f zero o = refl
length-bytes_from f (suc n) o = ap suc (length-bytes_from f n (o + 1))

get_or-bytes_from : (f : ℕ → Byte) (n o i : ℕ) → i < n → get_or (bytes_from f n o) i 0 ≡ f (o + i)
unfolding bytes_from
get_or-bytes_from f zero o i h = absurd (omega arith)
get_or-bytes_from f (suc n) o zero h = ap f (omega arith)
get_or-bytes_from f (suc n) o (suc i) h =
    get_or-bytes_from f n (o + 1) i (omega arith) ∙ ap f (omega arith)

pub read-zero_lem : (d : Ram) (start : ℕ) → read d start 0 ≡ []
unfolding read
read-zero_lem d start = refl

pub write-zero_lem : (d : Ram) (start : ℕ) (b : List Byte) → write d start 0 b ≡ d
unfolding write
write-zero_lem d start b = refl

append_nil : (b : List Byte) → b ++ [] ≡ b
append_nil [] = refl
append_nil (x ∷ b) = ap (◌∷◌ x) (append_nil b)

read-one : (d : Ram) (start : ℕ) → read d start 1 ≡ bytes_from (d start) 512 0
unfolding read
read-one d start = append_nil (bytes_from (d start) 512 0)

pub length-read_lem : (d : Ram) (start : ℕ) → length (read d start 1) ≡ 512
length-read_lem d start = ap length (read-one d start) ∙ length-bytes_from (d start) 512 0

pub read-suc_lem :
    (d : Ram) (start nr : ℕ) → read d start (suc nr) ≡ read d start 1 ++ read d (start + 1) nr
unfolding read
read-suc_lem d start nr = ap (λ b. b ++ read d (start + 1) nr) (sym (read-one d start))

pub write-suc_lem :
    (d : Ram) (start nr : ℕ) (b : List Byte)
    → write d start (suc nr) b ≡ write (write d start 1 (take 512 b)) (start + 1) nr (drop 512 b)
unfolding write
write-suc_lem d start nr b =
    ap (λ c. write (write_one d start c) (start + 1) nr (drop 512 b)) (sym (twice 512 b))
  where
    twice : (n : ℕ) (b : List Byte) → take n (take n b) ≡ take n b
    twice zero b = refl
    twice (suc n) [] = refl
    twice (suc n) (x ∷ b) = ap (◌∷◌ x) (twice n b)

write_one_self : (d : Ram) (n : ℕ) (b : List Byte) (o : ℕ) → write_one d n b n o ≡ get_or b o 0
unfolding write_one
write_one_self d n b o = rw (eq→== n n refl)

write_one-other : (d : Ram) (n m : ℕ) (b : List Byte) → n ≢ m → write_one d n b m ≡ d m
unfolding write_one
write_one-other d n m b ne = fun_ext (λ o. rw (ne→== m n (λ e. ne (sym e))))

read_ext :
    (d : Ram) (start : ℕ) (b : List Byte)
    → length b ≡ 512
    → ((i : ℕ) → i < 512 → d start i ≡ get_or b i 0)
    → read d start 1 ≡ b
read_ext d start b size h =
    read-one d start
    ∙ list_ext (bytes_from (d start) 512 0) b 0 (length-bytes_from (d start) 512 0 ∙ sym size)
        (λ i l.
          let small : i < 512 = omega (arith, length-bytes_from (d start) 512 0) in
          get_or-bytes_from (d start) 512 0 i small ∙ ap (d start) (omega arith) ∙ h i small)

pub read-write_self_lem :
    (d : Ram) (start : ℕ) (b : List Byte) → length b ≡ 512 → read (write d start 1 b) start 1 ≡ b
unfolding write
read-write_self_lem d start b size =
    read_ext (write_one d start (take 512 b)) start b size
      (λ i l. write_one_self d start (take 512 b) i ∙ get_or-take 512 i b 0 l)

pub read-write_other_lem :
    (d : Ram) (start other : ℕ) (b : List Byte)
    → start ≢ other
    → read (write d start 1 b) other 1 ≡ read d other 1
unfolding write
read-write_other_lem d start other b ne =
    read-one (write_one d start (take 512 b)) other
    ∙ ap (λ f. bytes_from f 512 0) (write_one-other d start other (take 512 b) ne)
    ∙ sym (read-one d other)

pub hash_lt : (value bits : ℕ) → value % 2 ^ bits < 2 ^ bits
hash_lt value bits = mod-lt value (one-le-pow bits 2 (omega arith))

-- The hash is any function into the range; this one takes the low bits.
instance abbrev pub ram : Platform
ram = record {
  Dev = Ram;
  read = read;
  write = write;
  length-read = length-read_lem;
  read-zero = read-zero_lem;
  read-suc = read-suc_lem;
  write-zero = write-zero_lem;
  write-suc = write-suc_lem;
  read-write_self = read-write_self_lem;
  read-write_other = read-write_other_lem;
  hash_int = λ value bits. value % 2 ^ bits;
  hash_int-lt = hash_lt;
  stack = zero_bytes 512;
  length-stack = length-zero_bytes 512;
}
