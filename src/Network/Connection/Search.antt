-- ===== src/Network/Connection/Search.antt =====
-- network/controller.py: `_connect_loop`, the search for the controller that leads. What each attempt comes
-- to is an argument, in the order of the attempts; the sleep between two passes is left out.
use pylogstream.Prelude.{
  ◌≡◌, refl, ◌∙◌, List, [], ◌∷◌, ◌++◌, Bool, true, false, not, ◌&&◌, Option, none, some,
  if◌then◌else◌, ℤ, pos, eqb_ℤ, same, All, text_eq,
}
use pylogstream.Text.{Text, codes}
use pylogstream.Network.Connection.{ControllerAddress}

-- What `_try_controller` returns: the connection, what a controller that does not lead says, or None.
pub data Tried : Type 0 where
  connected unreachable : Tried
  not_leader : (leader_id leader_host : Text) (leader_port : ℤ) → Tried

unfoldable pub is_connected : Tried → Bool
is_connected Tried.connected = true
is_connected _ = false

unfoldable pub is_leader : Text → Text → ℤ → Bool
is_leader [] host port = false
is_leader (x ∷ id) host port = not (same host (codes "0.0.0.0")) && not (eqb_ℤ port (pos 0))

-- The leader that a controller names, if it knows one.
unfoldable pub hint_of : Tried → Option ControllerAddress
unfolding is_leader
hint_of (Tried.not_leader id host port) =
    if is_leader id host port
    then some (record { controller_id = id; host = host; port = port })
    else none
hint_of _ = none

-- The next attempt: the hint, or else the next of the pass; and what is left of the pass after it.
unfoldable pub next_attempt :
    List ControllerAddress
    → Option ControllerAddress
    → List ControllerAddress
    → Option (ControllerAddress × List ControllerAddress)
next_attempt all (some hint) left = some (hint, all)
next_attempt all none (c ∷ left) = some (c, left)
next_attempt (c ∷ cs) none [] = some (c, cs)
next_attempt [] none [] = none

unfoldable pub left_of :
    Option (ControllerAddress × List ControllerAddress) → List ControllerAddress
left_of none = []
left_of (some (_, left)) = left

-- `rest` is how the search goes on.
unfoldable pub after_attempt :
    Option (ControllerAddress × List ControllerAddress)
    → Tried
    → List Tried
    → Option (ControllerAddress × List Tried)
    → Option (ControllerAddress × List Tried)
unfolding is_connected
after_attempt none tried others rest = none
after_attempt (some (c, _)) tried others rest =
    if is_connected tried then some (c, others) else rest

-- Where the search ends, with the attempts that are left.
unfoldable pub connect_loop :
    List ControllerAddress
    → Option ControllerAddress
    → List ControllerAddress
    → List Tried
    → Option (ControllerAddress × List Tried)
unfolding after_attempt next_attempt left_of hint_of
connect_loop all hint left [] = none
connect_loop all hint left (tried ∷ others) =
    let attempt = next_attempt all hint left in
    let rest = connect_loop all (hint_of tried) (left_of attempt) others in
    after_attempt attempt tried others rest

-- There is always a next attempt.
next_attempt-some :
    (c : ControllerAddress) (cs : List ControllerAddress) (hint : Option ControllerAddress)
    (left : List ControllerAddress)
    → (p : ControllerAddress × List ControllerAddress) × (next_attempt (c ∷ cs) hint left ≡ some p)
unfolding next_attempt
next_attempt-some c cs (some hint) left = ((hint, c ∷ cs), refl)
next_attempt-some c cs none (d ∷ left) = ((d, left), refl)
next_attempt-some c cs none [] = ((c, cs), refl)

after_failed :
    (o : Option (ControllerAddress × List ControllerAddress))
    (p : ControllerAddress × List ControllerAddress) (tried : Tried) (others : List Tried)
    (rest : Option (ControllerAddress × List Tried))
    → o ≡ some p
    → is_connected tried ≡ false
    → after_attempt o tried others rest ≡ rest
unfolding after_attempt
after_failed o p tried others rest e f = rw (e, f) refl

-- With a list that is not empty, whatever the hint and the pass: the search ends with the first attempt
-- that connects, and makes no other after it.
pub connect_loop_lem :
    (c : ControllerAddress) (cs : List ControllerAddress) (failed others : List Tried)
    (hint : Option ControllerAddress) (left : List ControllerAddress)
    → All (λ tried. is_connected tried ≡ false) failed
    → (address : ControllerAddress) × (connect_loop
          (c ∷ cs)
          hint
          left
          (failed ++ Tried.connected ∷ others)
        ≡ some (address, others))
unfolding connect_loop after_attempt is_connected
connect_loop_lem c cs [] others hint left h =
    let (p, e) = next_attempt-some c cs hint left in (p.0, rw e refl)
connect_loop_lem c cs (tried ∷ failed) others hint left (f, h) =
    let (p, e) = next_attempt-some c cs hint left in
    let (address, q) =
      connect_loop_lem c cs failed others (hint_of tried)
        (left_of (next_attempt (c ∷ cs) hint left)) h in
    (address, after_failed (next_attempt (c ∷ cs) hint left) p tried _ _ e f ∙ q)
