-- ===== src/Management/Reader.antt =====
-- `_read_loop` and `_dispatch` of app/services/management.py: what the socket sends becomes replies
-- and events. Bytes are numbers; `decode` is `bytes.decode("utf-8", "replace")`. The two queues hold
-- what was put into them, the oldest first.
use openvpn_connect_web.Prelude.{
  Bool, List, Option, [], if◌then◌else◌, none, not, some, true, ℕ, ◌&&◌, ◌++◌, ◌==◌, ◌∷◌,
}
use openvpn_connect_web.Prelude.Text.{Text, cut, nonempty, text, upper}

-- the lines that the inner loop splits off, and the buffer it leaves
abbrev pub prefix : ℕ → List Text × Text → List Text × Text
prefix c ([], rest) = ([], c ∷ rest)
prefix c (line ∷ lines, rest) = ((c ∷ line) ∷ lines, rest)

unfoldable pub split_lines : Text → List Text × Text
split_lines [] = ([], [])
split_lines (c ∷ s) =
    let (lines, rest) = split_lines s in
    if c == 10 then ([] ∷ lines, rest) else prefix c (lines, rest)

-- `.rstrip("\r")`
unfoldable pub rstrip_returns : Text → Text
rstrip_returns [] = []
rstrip_returns (c ∷ s) =
    let rest = rstrip_returns s in if (c == 13) && not (nonempty rest) then [] else c ∷ rest

pub record Reader : Type 0 where
  pub buffer : Text
  pub responses : List Text
  pub events : List (Text × Text)
  pub closed : Bool

abbrev pub payload_of : Option Text → Text
payload_of none = []
payload_of (some payload) = payload

abbrev pub event_from : Text × Option Text → Text × Text
event_from (kind, payload) = (upper kind, payload_of payload)

unfoldable pub dispatch : Text → Reader → Reader
unfolding cut upper
dispatch [] r = record r { responses = r.responses ++ [] ∷ [] }
dispatch (c ∷ line) r =
    if c == 62
    then record r { events = r.events ++ event_from (cut 58 line) ∷ [] }
    else record r { responses = r.responses ++ (c ∷ line) ∷ [] }

module _ (decode : Text → Text) where
  unfoldable pub dispatch_all : List Text → Reader → Reader
  unfolding dispatch rstrip_returns
  dispatch_all [] r = r
  dispatch_all (raw ∷ lines) r = dispatch_all lines (dispatch (rstrip_returns (decode raw)) r)

  abbrev pub delivered : List Text × Text → Reader → Reader
  delivered (lines, rest) r = record (dispatch_all lines r) { buffer = rest }

  -- one turn of the outer loop, with the chunk that `recv` gave
  unfoldable pub receive : Text → Reader → Reader
  unfolding split_lines dispatch_all
  receive chunk r = delivered (split_lines (r.buffer ++ chunk)) r

  -- the `finally` block: `_EOF` for the one who waits for a reply, and the last event; the `None` that
  -- ends the queue of events is not kept
  unfoldable pub finish_reading : Text → Reader → Reader
  finish_reading eof r = record r {
    closed = true;
    responses = r.responses ++ eof ∷ [];
    events = r.events ++ (text "DISCONNECTED", []) ∷ [];
  }

  unfoldable pub read_loop : Text → List Text → Reader → Reader
  unfolding receive finish_reading
  read_loop eof [] r = finish_reading eof r
  read_loop eof (chunk ∷ chunks) r = read_loop eof chunks (receive chunk r)
