-- ===== src/Db/Ddl/Runs.antt =====
-- A server that carries out operations as documented, and a list of operations on it.
use shared_todos.Common.{
  ◌≡◌, refl, ap, ◌∙◌, String, Bool, true, false, Option, none, some, List, [], ◌∷◌, ◌++◌, string_eq,
  arith,
}
use shared_todos.Db.Ddl.{Catalog, Op, find, known, remove, every, effect, effects, carry}

module _ {A : Type 0} where
  pub remove-unknown :
      (name : String) (entries : List (String × A))
      → known name entries ≡ false
      → remove name entries ≡ entries
  unfolding find remove
  remove-unknown name [] h = refl
  remove-unknown name ((other, a) ∷ rest) h = ground (arith, h, remove-unknown name rest)

  pub every_mono :
      (p q : A → Bool) (entries : List (String × A))
      → ((a : A) → p a ≡ true → q a ≡ true)
      → every p entries ≡ true
      → every q entries ≡ true
  unfolding every
  every_mono p q [] h k = refl
  every_mono p q ((name, a) ∷ rest) h k = ground (arith, h a, k, every_mono p q rest h)

carry-append :
    (ops more : List Op) (r : Option Catalog) {c : Catalog}
    → ((d : Catalog) → effects ops d ≡ some c → effects (ops ++ more) d ≡ effects more c)
    → carry (effects ops) r ≡ some c
    → carry (effects (ops ++ more)) r ≡ effects more c
carry-append ops more none ih h = cc
carry-append ops more (some d) ih h = ih d h

pub effects-append :
    (ops more : List Op) (c : Catalog) {c' : Catalog}
    → effects ops c ≡ some c'
    → effects (ops ++ more) c ≡ effects more c'
unfolding effects
effects-append [] more c h = ground (arith, h)
effects-append (op ∷ ops) more c h =
    carry-append ops more (effect op c) (λ d k. effects-append ops more d k) h

-- a step that succeeds, and what is done after it
carry-some :
    {A B : Type 0} (f : A → Option B) (r : Option A) {b : B}
    → carry f r ≡ some b
    → (a : A) × (r ≡ some a) × (f a ≡ some b)
carry-some f none h = absurd cc
carry-some f (some a) h = (a, refl, h)

-- The server that alembic works on: its state, as much of it as a catalog tells, and an operation,
-- which can fail.
pub record Server : Type 1 where
  pub State : Type 0
  pub view : State → Catalog
  pub execute : Op → State → Option State

-- the operation is one of the list
pub data IsOneOf (op : Op) : List Op → Type 0 where
  at_first : (ops : List Op) → IsOneOf op (op ∷ ops)
  at_later : (other : Op) (ops : List Op) → IsOneOf op ops → IsOneOf op (other ∷ ops)

-- It does what is documented of these operations.
pub record IsServer (server : Server) (used : List Op) : Type 0 where
  pub documented :
      (op : Op) (s : server.State) {c : Catalog}
      → IsOneOf op used
      → effect op (server.view s) ≡ some c
      → (s' : server.State) × (server.execute op s ≡ some s') × (server.view s' ≡ c)

module _ (server : Server) where
  unfoldable pub run_all : List Op → server.State → Option server.State
  run_all [] s = some s
  run_all (op ∷ ops) s = carry (run_all ops) (server.execute op s)

  -- A list of operations does what is documented of it.
  pub run_all-documented :
      (ops : List Op) (laws : IsServer server ops) (s : server.State) {c : Catalog}
      → effects ops (server.view s) ≡ some c
      → (s' : server.State) × (run_all ops s ≡ some s') × (server.view s' ≡ c)
  unfolding effects run_all
  run_all-documented [] laws s h = (s, refl, ground (arith, h))
  run_all-documented (op ∷ ops) laws s {c = c} h =
      let (d, now, later) = carry-some (effects ops) (effect op (server.view s)) h in
      let (t, ran, seen) = laws.documented op s (at_first ops) now in
      let (s', all, at_end) =
        run_all-documented ops
          (record { documented = λ o u one. laws.documented o u (at_later op ops one) }) t {c = c}
          (ap (effects ops) seen ∙ later) in
      (s', ap (carry (run_all ops)) ran ∙ all, at_end)
