-- ===== src/Tests/Crates.antt =====
-- Small stand-ins for the crates behind the HTTP interface, with what is asked of them.
use Prim.Native.Char.{code}
use Prim.Native.String.{String}
use bitcoin_client_rust.Miner.{ControlSignal, Received, signal, empty}
use bitcoin_client_rust.Printable.{Format}
use bitcoin_client_rust.Printable.Shown.{IsFormat}
use bitcoin_client_rust.Control.{Crossbeam, IsCrossbeam}
use bitcoin_client_rust.Api.{url, Web}
use bitcoin_client_rust.Api.Asks.{IsWeb}
use bitcoin_client_rust.Estimator.{Float}
use bitcoin_client_rust.Prelude.{
  ◌+◌, ◌/◌, ℕ, zero, suc, ◌≡◌, refl, sym, ap, ◌∙◌, Bool, true, false, Option, none, some, List, [],
  ◌∷◌, ◌++◌, nat_beq, if◌then◌else◌,
}

-- A number in unary, closed by a mark.
abbrev unary : ℕ → String → String
unary zero rest = String.◌∷◌ "b" rest
unary (suc n) rest = String.◌∷◌ "a" (unary n rest)

abbrev encode : List ℕ → String
encode [] = String.[]
encode (n ∷ ns) = unary n (encode ns)

abbrev bump : List ℕ → List ℕ
bump [] = []
bump (n ∷ ns) = suc n ∷ ns

abbrev decode : String → List ℕ
decode String.[] = []
decode (String.◌∷◌ c s) =
    let rest = decode s in if nat_beq (code c) b'b' then 0 ∷ rest else bump rest

decode-unary : (n : ℕ) (rest : String) → decode (unary n rest) ≡ n ∷ decode rest
decode-unary zero rest = refl
decode-unary (suc n) rest = ap bump (decode-unary n rest)

decode-encode : (ns : List ℕ) → decode (encode ns) ≡ ns
decode-encode [] = refl
decode-encode (n ∷ ns) = decode-unary n (encode ns) ∙ ap (λ ms. n ∷ ms) (decode-encode ns)

instance abbrev pub toy_format : Format
toy_format = record { encode = encode; date = λ millis. some "1970-01-01" }

pub toy_format-IsFormat : IsFormat toy_format
toy_format-IsFormat a b e = sym (decode-encode a) ∙ ap decode e ∙ decode-encode b

-- Every url has the path that it is, and asks with the number 7.
instance abbrev pub toy_web : Web
toy_web = record {
  join = λ req_url. url req_url (("lambda", "7") ∷ ("n", "7") ∷ []);
  render = λ page. some "page";
}

pub toy_web-IsWeb : IsWeb toy_web
toy_web-IsWeb page = ("page", refl)

-- Whether the receiver lives, and the queue.
abbrev Queue : Type 0
Queue = Bool × List ControlSignal

abbrev toy_send : ControlSignal → Queue → Option Queue
toy_send s (true, signals) = some (true, signals ++ s ∷ [])
toy_send s (false, signals) = none

abbrev toy_recv : Queue → Queue × Received
toy_recv (alive, []) = ((alive, []), empty)
toy_recv (alive, s ∷ signals) = ((alive, signals), signal s)

abbrev pub toy_crossbeam : Crossbeam
toy_crossbeam = record {
  Channel = Queue;
  unbounded = (true, []);
  send = toy_send;
  recv = toy_recv;
  hang_up = λ c. (false, c.1);
  pending = λ c. c.1;
  is_open = λ c. c.0;
}

recv-none : (c : Queue) → c.1 ≡ [] → toy_recv c ≡ (c, empty)
recv-none (alive, []) e = refl
recv-none (alive, s ∷ signals) e = cc e

recv-some :
    (c : Queue) (s : ControlSignal) (rest : List ControlSignal)
    → c.1 ≡ s ∷ rest
    → (d : Queue) × (toy_recv c ≡ (d, signal s)) × (d.1 ≡ rest) × (d.0 ≡ c.0)
recv-some (alive, []) s rest e = cc e
recv-some (alive, t ∷ signals) s rest e =
    let same : t ≡ s = cc e in
    let tail : signals ≡ rest = cc e in
    ((alive, signals), (λ i. ((alive, signals), signal (same i))), tail, refl)

send-open :
    (s : ControlSignal) (c : Queue)
    → c.0 ≡ true
    → (d : Queue) × (toy_send s c ≡ some d) × (d.1 ≡ c.1 ++ s ∷ []) × (d.0 ≡ true)
send-open s (true, signals) e = ((true, signals ++ s ∷ []), refl, refl, refl)
send-open s (false, signals) e = cc e

send-closed : (s : ControlSignal) (c : Queue) → c.0 ≡ false → toy_send s c ≡ none
send-closed s (true, signals) e = cc e
send-closed s (false, signals) e = refl

pub toy_crossbeam-IsCrossbeam : IsCrossbeam toy_crossbeam
toy_crossbeam-IsCrossbeam = record {
  unbounded-pending = refl;
  unbounded-open = refl;
  send-open = send-open;
  send-closed = send-closed;
  recv-none = recv-none;
  recv-some = recv-some;
  hang_up-closed = λ c. refl;
}

-- Whole numbers for `f64`; quotients are rounded down.
abbrev pub whole : Float
whole = record { f64 = ℕ; of = λ n. n; plus = λ a b. a + b; over = λ a b. a / b }
