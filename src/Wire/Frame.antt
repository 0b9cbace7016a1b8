-- ===== src/Wire/Frame.antt =====
-- Readers stay inside their response: whatever the outcome, the bytes taken from the stream are
-- those by which `remain` falls, they are the next ones, and there are never more than `remain`.
use kafka_go.Prelude.{
  ℕ, zero, suc, ◌+◌, ◌-◌, ◌≤◌, ◌≡◌, refl, sym, inl, inr, Bool-cases, ◌∙◌, List, [], ◌∷◌, arith, min,
  length, length-drop, length-take, drop, take, ltb, ltb_ℤ, if◌then◌else◌, ℤ, pos, negsuc, pos_part,
}
use native.Mathlib.Nat.{zero-add}
use kafka_go.Wire.Bytes.{signed16, signed32}
use kafka_go.Wire.Reader.{Cursor, Outcome, done, fail, Reader, pure, ◌>>=◌, and_then, final, at}
use kafka_go.Wire.Read.{
  discard_n, peek_read, read_int8, read_int16, read_int32, read_int64, read_bool, check_size,
  read_string_with, read_array_len, read_bytes_with, read_new_bytes, read_new_string, read_string,
  read_bytes, read_times, read_array_with, read_string_array, discard_string, discard_bytes,
}

-- From `c` to `d` the reader took the next `taken` bytes.
pub record Advances (c d : Cursor) : Type 0 where
  pub taken : ℕ
  pub within : taken ≤ c.remain
  pub available : taken ≤ length c.input
  pub left : d ≡ at (drop taken c.input) (c.remain - taken)

pub record Framed {ℓ} {A : Type ℓ} (m : Reader A) : Type 0 where
  pub step : (c : Cursor) → Advances c (final (m c))

module _ {ℓ} {A : Type ℓ} where
  drop_all : (n : ℕ) (xs : List A) → length xs ≤ n → drop n xs ≡ []
  drop_all zero [] h = refl
  drop_all (suc n) [] h = refl
  drop_all zero (x ∷ xs) h = absurd (omega arith)
  drop_all (suc n) (x ∷ xs) h = drop_all n xs (omega arith)

  drop-drop : (m n : ℕ) (xs : List A) → drop n (drop m xs) ≡ drop (m + n) xs
  drop-drop zero n xs = rw zero-add
  drop-drop (suc m) n [] = drop_all n [] (omega arith) ∙ sym (drop_all (suc m + n) [] (omega arith))
  drop-drop (suc m) n (x ∷ xs) =
      let e : suc m + n ≡ suc (m + n) = omega arith in rw e (drop-drop m n xs)

pub stays : (c : Cursor) → Advances c c
stays c = record { taken = 0; within = omega arith; available = omega arith; left = ground arith }

pub Advances-trans : {c d e : Cursor} → Advances c d → Advances d e → Advances c e
Advances-trans {c} {d} {e} p q = record {
  taken = p.taken + q.taken;
  within = ground arith;
  available = ground (arith, length-drop p.taken c.input);
  left = ground (arith, drop-drop p.taken q.taken c.input);
}

pub pure-Framed {ℓ} : {A : Type ℓ} (a : A) → Framed (pure a)
unfolding pure
pure-Framed a = record { step = λ c. stays c }

and_then-Advances {ℓ κ} :
    {A : Type ℓ} {B : Type κ} (c : Cursor) (o : Outcome A) (f : A → Reader B)
    → ((a : A) → Framed (f a))
    → Advances c (final o)
    → Advances c (final (and_then o f))
and_then-Advances c (done a d) f h p = Advances-trans p ((h a).step d)
and_then-Advances c (fail e d) f h p = p

pub >>=-Framed {ℓ κ} :
    {A : Type ℓ} {B : Type κ} {m : Reader A} (f : A → Reader B)
    → Framed m
    → ((a : A) → Framed (f a))
    → Framed (m >>= f)
unfolding ◌>>=◌
>>=-Framed {m = m} f h g = record { step = λ c. and_then-Advances c (m c) f g (h.step c) }

pub last-Framed {ℓ κ} :
    {A : Type ℓ} {B : Type κ} {m : Reader A} (f : A → B) → Framed m → Framed (m >>= λ a. pure (f a))
last-Framed f h = >>=-Framed _ h (λ a. pure-Framed (f a))

-- What an operation that cuts its request to `remain` and then to the stream takes.
abbrev cut_to : ℕ → Cursor → ℕ
cut_to n c = min (min n c.remain) (length c.input)

pub discard_n-Framed : (n : ℤ) → Framed (discard_n n)
unfolding discard_n
discard_n-Framed (negsuc n) = record { step = λ c. stays c }
discard_n-Framed (pos n) = record {
  step = λ c. record {
    taken = cut_to n c;
    within = omega arith;
    available = omega arith;
    left = ground (arith, drop_all (length c.input) c.input);
  };
}

pub peek_read-Framed {ℓ} : {A : Type ℓ} (n : ℕ) (f : List ℕ → A) → Framed (peek_read n f)
unfolding peek_read
peek_read-Framed n f = record {
  step = λ c. elim (Bool-cases (ltb c.remain n)) [
    | inl e ↦ rw e (stays c)
    | inr e ↦ rw e (elim (Bool-cases (ltb (length c.input) n)) [
      | inl d ↦ rw d (stays c)
      | inr d ↦ rw d ((last-Framed (λ _. f (take n c.input)) (discard_n-Framed (pos n))).step c)
    ])
  ];
}

pub check_size-Framed : (n : ℤ) → Framed (check_size n)
unfolding check_size
check_size-Framed n = record {
  step = λ c. elim (Bool-cases (ltb_ℤ (pos c.remain) n)) [
    | inl e ↦ rw e (stays c)
    | inr e ↦ rw e (stays c)
  ];
}

pub read_new_bytes-Framed : (n : ℤ) → Framed (read_new_bytes n)
unfolding read_new_bytes
read_new_bytes-Framed (negsuc n) = record { step = λ c. stays c }
read_new_bytes-Framed (pos n) = record {
  step = λ c. record {
    taken = cut_to n c;
    within = omega arith;
    available = omega arith;
    left = ground (
      arith,
      drop_all (length c.input) c.input,
      length-take n c.input,
      length-take c.remain c.input,
    );
  };
}

pub int8-Framed : Framed read_int8
unfolding read_int8
int8-Framed = peek_read-Framed 1 _

pub int16-Framed : Framed read_int16
unfolding read_int16
int16-Framed = peek_read-Framed 2 _

pub int32-Framed : Framed read_int32
unfolding read_int32
int32-Framed = peek_read-Framed 4 _

pub int64-Framed : Framed read_int64
unfolding read_int64
int64-Framed = peek_read-Framed 8 _

pub bool-Framed : Framed read_bool
unfolding read_bool
bool-Framed = peek_read-Framed 1 _

pub array_len-Framed : Framed read_array_len
unfolding read_array_len
array_len-Framed = last-Framed _ int32-Framed

module _ {ℓ} {A : Type ℓ} where
  pub string_with-Framed :
      (cb : ℤ → Reader A) → ((n : ℤ) → Framed (cb n)) → Framed (read_string_with cb)
  unfolding read_string_with
  string_with-Framed cb h =
      >>=-Framed _ int16-Framed
        λ v. >>=-Framed _ (check_size-Framed (signed16 v)) λ _. h (signed16 v)

  pub bytes_with-Framed :
      (cb : ℤ → Reader A) → ((n : ℤ) → Framed (cb n)) → Framed (read_bytes_with cb)
  unfolding read_bytes_with
  bytes_with-Framed cb h =
      >>=-Framed _ array_len-Framed λ n. >>=-Framed _ (check_size-Framed n) λ _. h n

  pub times-Framed : (n : ℕ) (m : Reader A) → Framed m → Framed (read_times n m)
  unfolding read_times
  times-Framed zero m h = pure-Framed []
  times-Framed (suc n) m h = >>=-Framed _ h λ x. last-Framed _ (times-Framed n m h)

  pub array-Framed : {m : Reader A} → Framed m → Framed (read_array_with m)
  unfolding read_array_with
  array-Framed {m} h = >>=-Framed _ int32-Framed λ v. times-Framed (pos_part (signed32 v)) m h

pub new_string-Framed : (n : ℤ) → Framed (read_new_string n)
unfolding read_new_string
new_string-Framed n = last-Framed _ (read_new_bytes-Framed n)

pub string-Framed : Framed read_string
unfolding read_string
string-Framed = string_with-Framed read_new_string new_string-Framed

pub bytes-Framed : Framed read_bytes
unfolding read_bytes
bytes-Framed = bytes_with-Framed read_new_bytes read_new_bytes-Framed

pub string_array-Framed : Framed read_string_array
unfolding read_string_array
string_array-Framed = array-Framed string-Framed

skip-Framed : (n : ℤ) → Framed (if ltb_ℤ n (pos 0) then pure tt else discard_n n)
skip-Framed n = elim (Bool-cases (ltb_ℤ n (pos 0))) [
  | inl e ↦ rw e (pure-Framed tt)
  | inr e ↦ rw e (discard_n-Framed n)
]

pub discard_string-Framed : Framed discard_string
unfolding discard_string
discard_string-Framed = string_with-Framed _ skip-Framed

pub discard_bytes-Framed : Framed discard_bytes
unfolding discard_bytes
discard_bytes-Framed = bytes_with-Framed _ skip-Framed

-- What a reader of several fields is made of.
pub ruleset framed = (
  >>=-Framed, pure-Framed, int8-Framed, int16-Framed, int32-Framed, int64-Framed, bool-Framed,
  string-Framed, bytes-Framed, string_array-Framed, array-Framed,
)
