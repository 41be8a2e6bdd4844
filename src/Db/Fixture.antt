-- ===== src/Db/Fixture.antt =====
-- A database for the tests: it counts its idle connections, and its answers are given in order.
use vm.Prelude.{ℕ, zero, suc, ◌≡◌, refl, Bool, true, false, none, some, List, [], ◌∷◌, arith}
use vm.Prelude.Text.{codes}
use vm.Db.Query.{Row, rows, Mysql}
use vm.Db.Balance.{Pool}

abbrev pub adapter : Row
adapter =
    some (codes "a")
    ∷ some (codes "psw")
    ∷ some (codes "home")
    ∷ some (codes "2018")
    ∷ none
    ∷ some (codes "7")
    ∷ some (codes "8")
    ∷ []

-- The state is the number of idle connections and the number of statements so far. The answer to a
-- statement goes by its number.
abbrev pub World : Type 0
World = ℕ × ℕ

abbrev pub idle : World → ℕ
idle w = w.0

abbrev pub fetch : World → World × Bool
fetch (zero, n) = ((zero, n), false)
fetch (suc k, n) = ((k, n), true)

abbrev pub answering : (ℕ → List Row) → Mysql World
answering rs = record {
  fetch = fetch;
  recycle = λ w. (suc w.0, w.1);
  query = λ sql w. ((w.0, suc w.1), rows (rs w.1));
}

fetched : (w : World) → (fetch w).1 ≡ true → suc (idle (fetch w).0) ≡ idle w
fetched (zero, n) e = ground arith
fetched (suc k, n) e = refl

refused : (w : World) → (fetch w).1 ≡ false → idle (fetch w).0 ≡ idle w
refused (zero, n) e = refl
refused (suc k, n) e = ground arith

pub answering-Pool : (rs : ℕ → List Row) → Pool (answering rs) idle
answering-Pool rs = record {
  fetched = fetched;
  refused = refused;
  given_back = λ w. refl;
  queried = λ sql w. refl;
}
