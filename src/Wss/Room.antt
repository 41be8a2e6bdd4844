-- ===== src/Wss/Room.antt =====
-- atb_wss/LiveRoom.h and LiveRoom.cc: a room of viewers of one camera. The mutex is left out: each
-- operation holds it for its whole body. `now` is the answer of `Global::GetTickCount`.
use vm.Prelude.{
  ℕ, ◌≡◌, refl, Bool, false, not, ◌&&◌, ◌||◌, List, [], ◌∷◌, ◌++◌, arith, ltb, nat_beq,
  if◌then◌else◌, length,
}
use vm.Prelude.Text.{Text}

pub record LiveRoom : Type 0 where
  pub rdy : Bool
  pub cmsid : Text
  pub devid : Text
  pub token : Text
  pub id : Text
  pub timestamp : ℕ
  pub users : List ℕ

-- The constructor.
unfoldable pub new_room : Text → Text → Text → LiveRoom
new_room cmsid devid token = record {
  rdy = false;
  cmsid = cmsid;
  devid = devid;
  token = token;
  id = [];
  timestamp = 0;
  users = [];
}

-- `std::find(users_.begin(), users_.end(), fd) != users_.end()`.
unfoldable pub has_user : ℕ → List ℕ → Bool
has_user fd [] = false
has_user fd (u ∷ us) = nat_beq u fd || has_user fd us

-- `users_.erase(it)` at the first position of `fd`.
unfoldable pub erase_user : ℕ → List ℕ → List ℕ
erase_user fd [] = []
erase_user fd (u ∷ us) = if nat_beq u fd then us else u ∷ erase_user fd us

unfoldable pub size : LiveRoom → ℕ
size r = length r.users

unfoldable pub join : ℕ → LiveRoom → LiveRoom × ℕ
join fd r =
    if has_user fd r.users
    then (r, length r.users)
    else (let users = r.users ++ fd ∷ [] in
        let count = length users in
        (record r { users = users; timestamp = if ltb 0 count then 0 else r.timestamp }, count))

unfoldable pub quit : ℕ → ℕ → LiveRoom → LiveRoom × ℕ
quit now fd r =
    if has_user fd r.users
    then (let users = erase_user fd r.users in
        let count = length users in
        (record r { users = users; timestamp = if ltb count 1 then now else r.timestamp }, count))
    else (r, length r.users)

-- No socket stands twice in the list.
abbrev pub Distinct : List ℕ → Type 0
Distinct [] = Unit {0}
Distinct (u ∷ us) = (has_user u us ≡ false) × Distinct us

pub has_user-append :
    (fd j : ℕ) (us : List ℕ) → has_user j (us ++ fd ∷ []) ≡ (has_user j us || nat_beq fd j)
unfolding has_user
has_user-append fd j [] = ground arith
has_user-append fd j (u ∷ us) = ground (arith, has_user-append fd j us)

append-Distinct :
    (fd : ℕ) (us : List ℕ) → has_user fd us ≡ false → Distinct us → Distinct (us ++ fd ∷ [])
unfolding has_user
append-Distinct fd [] h d = ground arith
append-Distinct fd (u ∷ us) h d = ground (arith, has_user-append fd u us, append-Distinct fd us)

has_user-erase_user :
    (fd j : ℕ) (us : List ℕ)
    → Distinct us
    → has_user j (erase_user fd us) ≡ (not (nat_beq fd j) && has_user j us)
unfolding has_user erase_user
has_user-erase_user fd j [] d = ground arith
has_user-erase_user fd j (u ∷ us) d = ground (arith, has_user-erase_user fd j us)

has_user-erase_user_absent :
    (fd j : ℕ) (us : List ℕ) → has_user j us ≡ false → has_user j (erase_user fd us) ≡ false
unfolding has_user erase_user
has_user-erase_user_absent fd j [] h = refl
has_user-erase_user_absent fd j (u ∷ us) h = ground (arith, has_user-erase_user_absent fd j us)

erase_user-Distinct : (fd : ℕ) (us : List ℕ) → Distinct us → Distinct (erase_user fd us)
unfolding has_user erase_user
erase_user-Distinct fd [] d = tt
erase_user-Distinct fd (u ∷ us) d =
    ground (arith, erase_user-Distinct fd us, has_user-erase_user_absent fd u us)

pub join-Distinct : (fd : ℕ) (r : LiveRoom) → Distinct r.users → Distinct (join fd r).0.users
unfolding join
join-Distinct fd r d = ground (arith, append-Distinct fd r.users)

pub quit-Distinct :
    (now fd : ℕ) (r : LiveRoom) → Distinct r.users → Distinct (quit now fd r).0.users
unfolding quit
quit-Distinct now fd r d = ground (arith, erase_user-Distinct fd r.users)

-- As a set of sockets, the users after a join are those before and the new one.
pub has_user-join :
    (fd j : ℕ) (r : LiveRoom)
    → has_user j (join fd r).0.users ≡ (has_user j r.users || nat_beq fd j)
unfolding join
has_user-join fd j r = ground (arith, has_user-append fd j r.users)

pub has_user-quit :
    (now fd j : ℕ) (r : LiveRoom)
    → Distinct r.users
    → has_user j (quit now fd r).0.users ≡ (not (nat_beq fd j) && has_user j r.users)
unfolding quit
has_user-quit now fd j r d = ground (arith, has_user-erase_user fd j r.users)
