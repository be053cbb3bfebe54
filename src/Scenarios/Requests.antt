-- ===== src/Scenarios/Requests.antt =====
-- An example of the theorem on the limits per address.
use p2p_server.Base.{ℕ, ◌-◌, ◌≡◌, min, String, List, [], ◌∷◌, arith}
use p2p_server.Server.{Bucket, count_of}
use p2p_server.Server.Window.{let_through, requests, let_through-min}

-- Two requests a minute, one of which has been made.
abbrev minute : Bucket
minute = record { counts = ("10.0.0.1", 1) ∷ []; reset = 100; limit = 2; window = 60 }

abbrev calls : List (ℕ × String)
calls = (50, "10.0.0.1") ∷ (60, "10.0.0.2") ∷ (70, "10.0.0.1") ∷ []

let_through-min_example :
    let_through "10.0.0.1" calls minute
    ≡ min (requests "10.0.0.1" calls) (minute.limit - count_of "10.0.0.1" minute)
let_through-min_example =
    let_through-min "10.0.0.1" calls minute (λ e. omega (arith, e)) (omega arith)
