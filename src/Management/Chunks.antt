-- ===== src/Management/Chunks.antt =====
-- How the socket cuts the stream into chunks makes no difference.
use openvpn_connect_web.Prelude.{
  List, [], refl, ℕ, ◌++◌, ◌∷◌, ◌≡◌, Bool-cases, ap, append-nil, append_assoc, false, inl, inr, sym,
  ◌==◌, ◌∙◌,
}
use openvpn_connect_web.Prelude.Text.{Text}
use openvpn_connect_web.Management.Reader.{
  split_lines, Reader, dispatch, dispatch_all, finish_reading, prefix, read_loop, receive,
  rstrip_returns, delivered,
}

-- the lines of a whole, from those of a first part and those of its remainder with the second
joined : List Text → List Text × Text → List Text × Text
joined lines (more, rest) = (lines ++ more, rest)

-- `b"".join(chunks)`
abbrev pub flatten : List Text → Text
flatten [] = []
flatten (chunk ∷ chunks) = chunk ++ flatten chunks

prefix-joined :
    (c : ℕ) (lines : List Text) (rest b : Text)
    → (c == 10) ≡ false
    → prefix c (joined lines (split_lines (rest ++ b)))
      ≡ joined (prefix c (lines, rest)).0 (split_lines ((prefix c (lines, rest)).1 ++ b))
unfolding split_lines joined
prefix-joined c [] rest b inside = rw inside refl
prefix-joined c (line ∷ lines) rest b inside = refl

split_lines-append :
    (a b : Text)
    → split_lines (a ++ b) ≡ joined (split_lines a).0 (split_lines ((split_lines a).1 ++ b))
unfolding split_lines joined
split_lines-append [] b = refl
split_lines-append (c ∷ a) b = elim (Bool-cases (c == 10)) [
  | inl newline ↦ rw newline (ap (λ p. ([] ∷ p.0, p.1)) (split_lines-append a b))
  | inr inside ↦ rw inside (
      ap (prefix c) (split_lines-append a b)
      ∙ prefix-joined c (split_lines a).0 (split_lines a).1 b inside)
]

module _ (decode : Text → Text) where
  dispatch_all-append :
      (xs ys : List Text) (r : Reader)
      → dispatch_all decode (xs ++ ys) r ≡ dispatch_all decode ys (dispatch_all decode xs r)
  unfolding dispatch_all
  dispatch_all-append [] ys r = refl
  dispatch_all-append (x ∷ xs) ys r =
      dispatch_all-append xs ys (dispatch (rstrip_returns (decode x)) r)

  dispatch-buffer :
      (line buffer : Text) (r : Reader)
      → dispatch line (record r { buffer = buffer }) ≡ record (dispatch line r) { buffer = buffer }
  unfolding dispatch
  dispatch-buffer [] buffer r = refl
  dispatch-buffer (c ∷ line) buffer r = elim (Bool-cases (c == 62)) [
    | inl hit ↦ rw hit refl
    | inr miss ↦ rw miss refl
  ]

  dispatch_all-buffer :
      (lines : List Text) (buffer : Text) (r : Reader)
      → dispatch_all decode lines (record r { buffer = buffer })
        ≡ record (dispatch_all decode lines r) { buffer = buffer }
  unfolding dispatch_all
  dispatch_all-buffer [] buffer r = refl
  dispatch_all-buffer (line ∷ lines) buffer r =
      ap (dispatch_all decode lines) (dispatch-buffer (rstrip_returns (decode line)) buffer r)
      ∙ dispatch_all-buffer lines buffer (dispatch (rstrip_returns (decode line)) r)

  receive-receive :
      (a b : Text) (r : Reader) → receive decode b (receive decode a r) ≡ receive decode (a ++ b) r
  unfolding receive joined
  receive-receive a b r =
      let first = split_lines (r.buffer ++ a) in
      let second = split_lines (first.1 ++ b) in
      let seen = dispatch_all decode first.0 r in
      ap (λ (x : Reader). record x { buffer = second.1 })
        (dispatch_all-buffer second.0 first.1 seen
          ∙ ap (λ (x : Reader). record x { buffer = first.1 })
              (sym (dispatch_all-append first.0 second.0 r)))
      ∙ ap (λ p. delivered decode p r) (sym (split_lines-append (r.buffer ++ a) b))
      ∙ ap (λ t. delivered decode (split_lines t) r) (append_assoc r.buffer a b)

  receive-read_loop :
      (eof a : Text) (chunks : List Text) (r : Reader)
      → read_loop decode eof chunks (receive decode a r)
        ≡ read_loop decode eof ((a ++ flatten chunks) ∷ []) r
  unfolding read_loop
  receive-read_loop eof a [] r =
      ap (λ t. finish_reading decode eof (receive decode t r)) (sym (append-nil a))
  receive-read_loop eof a (chunk ∷ chunks) r =
      ap (read_loop decode eof chunks) (receive-receive a chunk r)
      ∙ receive-read_loop eof (a ++ chunk) chunks r
      ∙ ap (λ t. finish_reading decode eof (receive decode t r))
          (append_assoc a chunk (flatten chunks))

  -- The replies, the events and the rest that the read loop leaves depend on the bytes that the
  -- socket sent only, not on how `recv` cut them: any chunks give what their concatenation gives
  -- when it comes as one.
  pub read_loop-flatten :
      (eof chunk : Text) (chunks : List Text) (r : Reader)
      → read_loop decode eof (chunk ∷ chunks) r
        ≡ read_loop decode eof (flatten (chunk ∷ chunks) ∷ []) r
  unfolding read_loop
  read_loop-flatten eof chunk chunks r = receive-read_loop eof chunk chunks r
