-- ===== src/Wss/Safety.antt =====
-- atb_wss: with no null pointer in the table and a formatter whose texts fit the output buffers,
-- every request is served without a fault, and leaves the table and the rooms so.
use vm.Prelude.{
  ℕ, false, ◌≡◌, ◌≤◌, inl, inr, Option, none, some, nat_key, find, insert, Values, find-Values,
  insert-Values, Option-cases, length, le→leb, ◌⊎◌,
}
use vm.Prelude.Exec.{Ensures}
use vm.Prelude.Text.{is_empty, Text, text_key}
use vm.Wss.Server.{
  Connection, Connections, update, send, set_value, get_value, update_timestamp, ws_max_data_len,
}

abbrev pub Live : Option Connection → Type 0
Live none = ⊥
Live (some c) = Unit {0}

abbrev pub AllLive : Connections → Type 0
AllLive = Values Live

find-Live :
    (socket : ℕ) (cs : Connections)
    → AllLive cs
    → (find socket cs ≡ none) ⊎ ((c : Connection) × (find socket cs ≡ some (some c)))
find-Live socket cs h = elim (Option-cases (find socket cs)) [
  | inl e ↦ inl e
  | inr (p, e) ↦ live p e (find-Values Live socket cs h e)
]
  where
    live :
        (p : Option Connection)
        → find socket cs ≡ some p
        → Live p
        → (find socket cs ≡ none) ⊎ ((c : Connection) × (find socket cs ≡ some (some c)))
    live none e l = absurd l
    live (some c) e l = inr (c, e)

put-AllLive :
    (socket : ℕ) (c : Connection) (cs : Connections)
    → AllLive cs
    → AllLive (insert socket (some c) cs)
put-AllLive socket c cs h = insert-Values Live socket (some c) cs tt h

update-AllLive :
    (socket : ℕ) (f : Connection → Connection) (cs : Connections)
    → AllLive cs
    → Ensures AllLive (update socket f cs)
unfolding update
update-AllLive socket f cs h = elim (find-Live socket cs h) [
  | inl e ↦ rw (e, update) h
  | inr (c, e) ↦ rw (e, update) (put-AllLive socket (f c) cs h)
]

pub set_value-AllLive :
    (socket : ℕ) (name value : Text) (cs : Connections)
    → AllLive cs
    → Ensures AllLive (set_value socket name value cs)
unfolding set_value
set_value-AllLive socket name value cs h = update-AllLive socket _ cs h

pub update_timestamp-AllLive :
    (socket timestamp : ℕ) (cs : Connections)
    → AllLive cs
    → Ensures AllLive (update_timestamp socket timestamp cs)
unfolding update_timestamp
update_timestamp-AllLive socket timestamp cs h = update-AllLive socket _ cs h

pub get_value-AllLive :
    (socket : ℕ) (name : Text) (cs : Connections)
    → AllLive cs
    → Ensures (λ r. AllLive r.0) (get_value socket name cs)
unfolding get_value
get_value-AllLive socket name cs h = elim (find-Live socket cs h) [
  | inl e ↦ rw (e, get_value) h
  | inr (c, e) ↦ rw (e, get_value) (put-AllLive socket _ cs h)
]

pub send-AllLive :
    (socket : ℕ) (message : Text) (cs : Connections)
    → is_empty message ≡ false
    → length message ≤ ws_max_data_len
    → AllLive cs
    → Ensures AllLive (send socket message cs)
unfolding send
send-AllLive socket message cs filled short h = elim (find-Live socket cs h) [
  | inl e ↦ rw (e, send) h
  | inr (c, e) ↦ rw (e, send, filled, le→leb _ _ short) (update-AllLive socket _ cs h)
]
