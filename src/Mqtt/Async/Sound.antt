-- ===== src/Mqtt/Async/Sound.antt =====
-- What holds of the client at every moment: its table is consistent, a connected client has a
-- connection, and the application was told of each change of the state, in order.
use libtr.Base.{
  is_some, ◌∙◌, ◌≡◌, refl, List, [], ◌∷◌, ◌++◌, Option, none, some, Bool, true, false, ◌&&◌,
  if◌then◌else◌, arith,
}
use libtr.Base.Int.{ℤ}
use libtr.Error.{Holds, Res}
use libtr.Mqtt.Qos.{Call}
use libtr.Mqtt.Qos.Count.{IsValid}
use libtr.Mqtt.Async.{
  State, created, connecting, connected, broken, reconnecting, disabled, deleting, deleted,
  is_connected, Event, changed, published, acknowledged, acknowledged_all, AsyncClient,
  state_change,
}

abbrev pub eq_state : State → State → Bool
eq_state created created = true
eq_state connecting connecting = true
eq_state connected connected = true
eq_state broken broken = true
eq_state reconnecting reconnecting = true
eq_state disabled disabled = true
eq_state deleting deleting = true
eq_state deleted deleted = true
eq_state _ _ = false

-- The changes that a client may go through.
abbrev pub allowed : State → State → Bool
allowed created connecting = true
allowed connecting connected = true
allowed connecting broken = true
allowed connected broken = true
allowed broken reconnecting = true
allowed reconnecting connected = true
allowed reconnecting broken = true
allowed connected deleting = true
allowed broken deleting = true
allowed deleting deleted = true
allowed _ _ = false

-- Where a sequence of callbacks leads from a state: each change starts where the last one ended,
-- and is allowed.
abbrev pub follow : State → List Event → Option State
follow s [] = some s
follow s (changed old new error ∷ events) =
    let rest = follow new events in if eq_state s old && allowed old new then rest else none
follow s (published _ _ _ ∷ events) = follow s events
follow s (acknowledged _ ∷ events) = follow s events

pub follow-append :
    (s t : State) (xs ys : List Event) → follow s xs ≡ some t → follow s (xs ++ ys) ≡ follow t ys
follow-append s t [] ys h = let same : s ≡ t = cc in rw same refl
follow-append s t (changed old new error ∷ xs) ys h = ground (arith, follow-append new t xs ys)
follow-append s t (published _ _ _ ∷ xs) ys h = follow-append s t xs ys h
follow-append s t (acknowledged _ ∷ xs) ys h = follow-append s t xs ys h

pub follow-acknowledged_all :
    (s : State) (calls : List Call) → follow s (acknowledged_all calls) ≡ some s
follow-acknowledged_all s [] = refl
follow-acknowledged_all s (call ∷ calls) = follow-acknowledged_all s calls

eq_state_refl : (s : State) → eq_state s s ≡ true
eq_state_refl created = refl
eq_state_refl connecting = refl
eq_state_refl connected = refl
eq_state_refl broken = refl
eq_state_refl reconnecting = refl
eq_state_refl disabled = refl
eq_state_refl deleting = refl
eq_state_refl deleted = refl

follow-changed :
    (s new : State) (error : ℤ)
    → allowed s new ≡ true
    → follow s (changed s new error ∷ []) ≡ some new
follow-changed s new error may = rw (eq_state_refl s, may) refl

pub record IsSound (client : AsyncClient) : Type 0 where
  pub valid : IsValid client.qos
  pub linked : is_connected client.state ≡ true → is_some client.mqtt ≡ true
  pub told :
      client.has_state_change_callback ≡ true → follow created client.events ≡ some client.state

pub is_connected-eq : (s : State) → is_connected s ≡ true → s ≡ connected
is_connected-eq connected h = refl
is_connected-eq _ h = cc

-- A change from the state that the client is in.
pub state_change-IsSound :
    (client : AsyncClient) (old_state new_state : State) (error : ℤ)
    → IsSound client
    → client.state ≡ old_state
    → allowed old_state new_state ≡ true
    → (is_connected new_state ≡ true → is_some client.mqtt ≡ true)
    → IsSound (state_change client old_state new_state error)
unfolding state_change
state_change-IsSound client old_state new_state error sound from may linked = record {
  valid = sound.valid;
  linked = linked;
  told = λ callback.
      let behind =
        follow-append created client.state client.events (changed old_state new_state error ∷ [])
          (sound.told callback) in
      rw callback (behind ∙ (rw from (follow-changed old_state new_state error may)));
}

-- A client that differs in what soundness does not read, and has heard of acknowledgements.
pub acknowledged-IsSound :
    (client client' : AsyncClient) (calls : List Call)
    → IsSound client
    → IsValid client'.qos
    → client'.state ≡ client.state
    → client'.mqtt ≡ client.mqtt
    → client'.has_state_change_callback ≡ client.has_state_change_callback
    → client'.events ≡ client.events ++ acknowledged_all calls
    → IsSound client'
acknowledged-IsSound client client' calls sound valid state mqtt has events = record {
  valid = valid;
  linked = λ h. rw mqtt (sound.linked (rw state at h));
  told = λ callback.
      rw (events, state)
        (follow-append created client.state client.events (acknowledged_all calls)
            (sound.told (rw has at callback))
          ∙ follow-acknowledged_all client.state calls);
}

-- A client whose other fields differ.
pub same-IsSound :
    (client client' : AsyncClient)
    → IsSound client
    → IsValid client'.qos
    → client'.state ≡ client.state
    → (is_connected client.state ≡ true → is_some client'.mqtt ≡ true)
    → client'.has_state_change_callback ≡ client.has_state_change_callback
    → client'.events ≡ client.events
    → IsSound client'
same-IsSound client client' sound valid state linked has events = record {
  valid = valid;
  linked = λ h. linked (rw state at h);
  told = λ callback. rw (events, state) (sound.told (rw has at callback));
}

-- Every client that a call leads to is sound.
abbrev pub Keeps : {W : Type 0} → Res (ℤ × AsyncClient × W) → Type 0
Keeps = Holds (λ (ret, client, w). IsSound client)
