-- ===== src/Base/Parsing.antt =====
-- Taking a successful read apart, in a parser that goes on with `f`. Each rule hands its
-- continuation what was read, the rest, and what the rest of the parser answers.
use go_fbx.Base.Errors.{Error, Result, ok, err, ◌>>=◌, ◌>>◌, guard, need}
use go_fbx.Base.Lists.{length, length-append}
use go_fbx.Base.Words.{
  Bytes, IsBytes, IsUint, put_uint, read_uint, read_bytes, read_uint-inv, length-put_uint,
  read_bytes-inv,
}
use Prim.Native.Nat.{ℕ, ◌+◌}
use native.Mathlib.Omega.{arith}
use mathlib.Core.Path.{◌≡◌, refl}
use mathlib.Core.Bool.{Bool, true, false}
use mathlib.Core.Option.{Option, none, some}
use mathlib.Core.List.{◌++◌}

pub need-then {ℓ κ μ} :
    {A : Type ℓ} {B : Type κ} {P : Type μ} (e : Error) (o : Option A) (f : A → Result B) {b : B}
    → (need e o >>= f) ≡ ok b
    → ((a : A) → o ≡ some a → f a ≡ ok b → P)
    → P
need-then e none f h k = cc
need-then e (some a) f h k = k a refl h

pub guard-then {κ μ} :
    {B : Type κ} {P : Type μ} (t : Bool) (e : Error) (m : Result B) {b : B}
    → (guard t e >> m) ≡ ok b
    → (t ≡ true → m ≡ ok b → P)
    → P
guard-then true e m h k = k refl h
guard-then false e m h k = cc

pub ok-then {ℓ κ μ} :
    {A : Type ℓ} {B : Type κ} {P : Type μ} (m : Result A) (f : A → Result B) {b : B}
    → (m >>= f) ≡ ok b
    → ((a : A) → m ≡ ok a → f a ≡ ok b → P)
    → P
ok-then (ok a) f h k = k a refl h
ok-then (err e) f h k = cc

count_uint :
    (n : ℕ) (bs : Bytes) (v : ℕ) (rest : Bytes)
    → bs ≡ put_uint n v ++ rest
    → length bs ≡ n + length rest
count_uint n bs v rest e = rw (e, length-append) (omega (arith, length-put_uint n v))

count_bytes :
    {n : ℕ} (bs v rest : Bytes) → bs ≡ v ++ rest → length v ≡ n → length bs ≡ n + length rest
count_bytes bs v rest e h = rw (e, length-append) (omega arith)

pub read_uint-then {κ μ} :
    {B : Type κ} {P : Type μ} (e : Error) (n : ℕ) (bs : Bytes) (f : ℕ × Bytes → Result B) {b : B}
    → IsBytes bs
    → (need e (read_uint n bs) >>= f) ≡ ok b
    → ((v : ℕ) (rest : Bytes)
        → bs ≡ put_uint n v ++ rest
        → IsUint n v
        → IsBytes rest
        → length bs ≡ n + length rest
        → f (v, rest) ≡ ok b
        → P)
    → P
read_uint-then e n bs f hb h k = need-then e (read_uint n bs) f h (λ a r q.
    let i = read_uint-inv n bs hb r in k a.0 a.1 i.0 i.1 i.2 (count_uint n bs a.0 a.1 i.0) q)

pub read_bytes-then {κ μ} :
    {B : Type κ} {P : Type μ} (e : Error) (n : ℕ) (bs : Bytes) (f : Bytes × Bytes → Result B)
    {b : B}
    → IsBytes bs
    → (need e (read_bytes n bs) >>= f) ≡ ok b
    → ((v rest : Bytes)
        → bs ≡ v ++ rest
        → length v ≡ n
        → IsBytes v
        → IsBytes rest
        → length bs ≡ n + length rest
        → f (v, rest) ≡ ok b
        → P)
    → P
read_bytes-then e n bs f hb h k = need-then e (read_bytes n bs) f h (λ a r q.
    let i = read_bytes-inv n bs hb r in
    k a.0 a.1 i.0 i.1 i.2 i.3 (count_bytes bs a.0 a.1 i.0 i.1) q)
