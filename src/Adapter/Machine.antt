-- ===== src/Adapter/Machine.antt =====
-- atb_adapter/AdapterServer.cpp: the play control of one camera, against a camera that plays or does not.
use vm.Prelude.{
  ℕ, ◌≡◌, ◌≢◌, refl, true, false, Bool, some, List, [], ◌∷◌, arith, find, Bool-cases, inl, inr,
  if◌then◌else◌, All,
}
use mathlib.Core.Path.{subst}
use vm.Prelude.Exec.{Exec, ok, ◌>>=◌, >>=-eq-ok}
use vm.Prelude.Int.{pos, int_beq}
use vm.Prelude.Text.{Text, text_key}
use vm.Adapter.Client.{DeviceNode, CmsClient, pushing, get_state}
use vm.Adapter.Control.{Turn, check_status, notify_start_push, server_notify_stop_push}
use vm.Adapter.Play.{camera-get_client, find_client-by_fd, find_client-has_cmsid}
use vm.Adapter.Playing.{camera, notify_stop_push-camera}
use vm.Adapter.Server.{TcpServer, find_client, has_fd, get_client, Push, notify_stop_push}
use vm.Adapter.Starts.{notify_push_cases, start_cases}
use vm.Adapter.Stopped.{notify_stop_push-keys, notify_stop_push_late, stop_cases}
use vm.Adapter.Unique.{keys, IsValid}
use vm.Wss.PlayMngr.{device_idle, device_playing}

-- What a camera is told, and whether that succeeded.
pub data Order : Type 0 where
  start : Order
  stop : Order

-- The camera that plays, or does not, under an order: what succeeds is done, what fails changes nothing,
-- and no camera that does not play is stopped with success.
pub data Move : Bool → Order → Bool → Bool → Type 0 where
  started : (plays : Bool) → Move plays start true true
  stopped : Move true stop true false
  failed : (plays : Bool) (o : Order) → Move plays o false plays

pub data Moves : Bool → List (Order × Bool) → Bool → Type 0 where
  none_left : (plays : Bool) → Moves plays [] plays
  then_moves :
      (plays now later : Bool) (o : Order) (done : Bool) (os : List (Order × Bool))
      → Move plays o done now
      → Moves now os later
      → Moves plays ((o, done) ∷ os) later

-- The camera of the server plays, or it is online and does not.
pub record Shows (cmsid devid : Text) (plays : Bool) (srv : TcpServer) : Type 0 where
  pub valid : IsValid srv
  pub client : CmsClient
  pub device : DeviceNode
  pub connected : get_client cmsid srv ≡ some client
  pub known : find devid client.devlist ≡ some device
  pub state : device.state ≡ (if plays then pushing else 1)

-- The camera of the client at this socket is the one that the server shows.
shown :
    (cmsid devid : Text) (plays : Bool) (c : CmsClient) (d : DeviceNode) (srv srv' : TcpServer)
    → IsValid srv
    → get_client cmsid srv ≡ some c
    → keys srv'.clients ≡ keys srv.clients
    → camera c.fd devid srv' ≡ some d
    → d.state ≡ (if plays then pushing else 1)
    → Shows cmsid devid plays srv'
shown cmsid devid plays c d srv srv' v here k found s =
    let own = find_client-has_cmsid cmsid c srv.clients here in
    let (c', by_id, known) =
      camera-get_client c devid d srv srv' v k (find_client-by_fd cmsid c srv.clients v here)
        found in
    record {
      valid = rw k v;
      client = c';
      device = d;
      connected = subst (λ id. get_client id srv' ≡ some c') own by_id;
      known = known;
      state = s;
    }

-- An order, as `AdapterServer` is given it.
unfoldable pub give :
    (Text → Text → ℕ) → Text → Text → Turn → Order → TcpServer → Exec (TcpServer × Push)
give check_start_push cmsid devid t start srv = notify_start_push check_start_push t cmsid devid srv
give check_start_push cmsid devid t stop srv = server_notify_stop_push t cmsid devid srv

abbrev succeeded : Push → Bool
succeeded p = int_beq p.ret (pos 0)

module _ (check_start_push : Text → Text → ℕ) (cmsid devid : Text) where
  -- What an order does to the camera: a move, and the camera that it leads to.
  abbrev Obeys : Bool → Order → TcpServer × Push → Type 0
  Obeys plays o r = (now : Bool) × Move plays o (succeeded r.1) now × Shows cmsid devid now r.0

  refused_order :
      (plays : Bool) (o : Order) (srv : TcpServer) (r : TcpServer × Push)
      → Shows cmsid devid plays srv
      → r.0 ≡ srv
      → r.1.ret ≢ pos 0
      → Obeys plays o r
  refused_order plays o srv r s same bad =
      let no_success : succeeded r.1 ≡ false = grind (arith, bad) in
      (plays, rw no_success (failed plays o), rw same s)

  start-Obeys :
      (t : Turn) (plays : Bool) (srv : TcpServer) {r : TcpServer × Push}
      → t.net ≡ true
      → notify_start_push check_start_push t cmsid devid srv ≡ ok r
      → Shows cmsid devid plays srv
      → Obeys plays start r
  start-Obeys t plays srv {r} sent e s =
      let here = find_client-by_fd cmsid s.client srv.clients s.valid s.connected in
      elim (start_cases check_start_push t cmsid devid s.client srv s.connected e) [
        | inl (same, bad) ↦ refused_order plays start srv r s same bad
        | inr told ↦ elim (notify_push_cases t devid s.client s.device srv here s.known sent told) [
          | inl (same, on, good) ↦
              let success : succeeded r.1 ≡ true = grind (arith, good) in
              (
                true,
                rw success (started plays),
                rw same (record {
                  valid = s.valid;
                  client = s.client;
                  device = s.device;
                  connected = s.connected;
                  known = s.known;
                  state = on;
                }),
              )
          | inr (d, k, found, inl (good, on)) ↦
              let success : succeeded r.1 ≡ true = grind (arith, good) in
              (
                true,
                rw success (started plays),
                shown cmsid devid true s.client d srv r.0 s.valid s.connected k found on,
              )
          | inr (d, k, found, inr (bad, as_before)) ↦
              let no_success : succeeded r.1 ≡ false = grind (arith, bad) in
              (
                plays,
                rw no_success (failed plays start),
                shown cmsid devid plays s.client d srv r.0 s.valid s.connected k found
                    (rw as_before s.state),
              )
        ]
      ]

  stop-Obeys :
      (t : Turn) (plays : Bool) (srv : TcpServer) {r : TcpServer × Push}
      → t.net ≡ true
      → server_notify_stop_push t cmsid devid srv ≡ ok r
      → Shows cmsid devid plays srv
      → Obeys plays stop r
  stop-Obeys t plays srv {r} sent e s =
      let here = find_client-by_fd cmsid s.client srv.clients s.valid s.connected in
      elim (stop_cases t cmsid devid s.client s.device srv s.connected s.known e) [
        | inl (same, bad) ↦ refused_order plays stop srv r s same bad
        | inr (on, told) ↦ told_stop plays (rw (← s.state) on) on here (rw sent at told)
      ]
    where
      told_stop :
          (q : Bool)
          → (if q then pushing else 1) ≡ pushing
          → s.device.state ≡ pushing
          → find_client (has_fd s.client.fd) srv.clients ≡ some s.client
          → notify_stop_push true t.now t.seq t.rounds devid s.client srv ≡ ok r
          → Obeys q stop r
      told_stop true same on here told =
          let k = notify_stop_push-keys t.now t.seq t.rounds devid s.client srv here told in
          elim (Bool-cases (succeeded r.1)) [
            | inl good ↦ (
              false,
              rw good stopped,
              shown cmsid devid false s.client (record s.device { state = 1 }) srv r.0 s.valid
                  s.connected k
                  (notify_stop_push-camera true t.now t.seq t.rounds devid s.client s.device srv
                    here s.known told (grind (arith, good)))
                  refl,
            )
            | inr bad ↦ (
              true,
              rw bad (failed true stop),
              shown cmsid devid true s.client s.device srv r.0 s.valid s.connected k
                  (notify_stop_push_late t.now t.seq t.rounds devid s.client s.device srv here
                    s.known on told (grind (arith, bad)))
                  on,
            )
          ]
      told_stop false same on here told = absurd (omega arith)

  give-Obeys :
      (t : Turn) (o : Order) (plays : Bool) (srv : TcpServer) {r : TcpServer × Push}
      → t.net ≡ true
      → give check_start_push cmsid devid t o srv ≡ ok r
      → Shows cmsid devid plays srv
      → Obeys plays o r
  unfolding give
  give-Obeys t start plays srv sent e s = start-Obeys t plays srv sent e s
  give-Obeys t stop plays srv sent e s = stop-Obeys t plays srv sent e s

  -- Orders, one after another, with whether each succeeded.
  unfoldable pub give_all : List (Turn × Order) → TcpServer → Exec (TcpServer × List (Order × Bool))
  give_all [] srv = ok (srv, [])
  give_all ((t, o) ∷ orders) srv = do
    (srv1, p) ← give check_start_push cmsid devid t o srv
    (srv2, done) ← give_all orders srv1
    ok (srv2, (o, succeeded p) ∷ done)

  give_all-Shows :
      (orders : List (Turn × Order)) (plays : Bool) (srv : TcpServer)
      {r : TcpServer × List (Order × Bool)}
      → All (λ (o : Turn × Order). o.0.net ≡ true) orders
      → give_all orders srv ≡ ok r
      → Shows cmsid devid plays srv
      → (now : Bool) × Moves plays r.1 now × Shows cmsid devid now r.0
  unfolding give_all
  give_all-Shows [] plays srv {r} sent e s =
      let same : srv ≡ r.0 = grind arith in
      let no_more : r.1 ≡ [] = grind arith in (plays, rw no_more (none_left plays), rw (← same) s)
  give_all-Shows ((t, o) ∷ orders) plays srv {r} sent e s =
      let ((srv1, p), first, e1) = >>=-eq-ok (give check_start_push cmsid devid t o srv) _ e in
      let ((srv2, done), others, e2) = >>=-eq-ok (give_all orders srv1) _ e1 in
      let (mid, move, s1) = give-Obeys t o plays srv sent.0 first s in
      let (now, moves, s2) = give_all-Shows orders mid srv1 sent.1 others s1 in
      let same : srv2 ≡ r.0 = grind arith in
      let list : (o, succeeded p) ∷ done ≡ r.1 = grind arith in
      (
        now,
        subst (λ l. Moves plays l now) list
            (then_moves plays mid now o (succeeded p) done move moves),
        subst (Shows cmsid devid now) same s2,
      )

Shows-check_status :
    (cmsid devid : Text) (plays : Bool) (srv : TcpServer)
    → Shows cmsid devid plays srv
    → check_status cmsid devid srv ≡ ok (if plays then device_playing else device_idle)
unfolding check_status get_state
Shows-check_status cmsid devid true srv s =
    rw (s.connected, check_status) (rw (s.known, get_state) (rw s.state refl))
Shows-check_status cmsid devid false srv s =
    rw (s.connected, check_status) (rw (s.known, get_state) (rw s.state refl))

-- A camera of a connected client plays, or is online and does not; it is started and stopped, in any
-- order, and every message is sent. Then the camera is what these moves make of it, which are those of
-- a machine with two states: a start that succeeds makes it play, a stop succeeds only where it plays
-- and ends that, and an order that fails, for whatever reason, changes nothing. The check of the
-- camera says which state it is in.
pub give_all-Moves :
    (check_start_push : Text → Text → ℕ) (cmsid devid : Text) (orders : List (Turn × Order))
    (plays : Bool) (srv : TcpServer) {r : TcpServer × List (Order × Bool)}
    → Shows cmsid devid plays srv
    → All (λ (o : Turn × Order). o.0.net ≡ true) orders
    → give_all check_start_push cmsid devid orders srv ≡ ok r
    → (now : Bool) × Moves plays r.1 now
      × (check_status cmsid devid r.0 ≡ ok (if now then device_playing else device_idle))
give_all-Moves check_start_push cmsid devid orders plays srv {r} s sent e =
    let (now, moves, s') = give_all-Shows check_start_push cmsid devid orders plays srv sent e s in
    (now, moves, Shows-check_status cmsid devid now r.0 s')
