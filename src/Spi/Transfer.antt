-- ===== src/Spi/Transfer.antt =====
-- What goes over the bus, and what comes back.
use tdoa.Base.{
  ℕ, zero, suc, ◌+◌, ◌≤◌, ◌<◌, ◌≡◌, refl, sym, ap, ◌∙◌, none, some, List, [], ◌++◌, arith, length,
  take, drop, length-append, length-take, length-drop, take-append-drop, append-nil, append_assoc,
  take_all, replicate, read_at, write_at, read_at_split, write_at_split, pos,
}
use tdoa.Spi.{Bus, FullDuplex, Spi, size_buf, transfer, writetospi, readfromspi}

abbrev zeros : ℕ → List ℕ
zeros n = replicate n 0

length-zeros : (n : ℕ) → length (zeros n) ≡ n
length-zeros zero = refl
length-zeros (suc n) = ap suc (length-zeros n)

drop-zeros : (k n m : ℕ) → m ≡ k + n → drop k (zeros m) ≡ zeros n
drop-zeros zero n m e = ap zeros (omega arith)
drop-zeros (suc k) n zero e = ground arith
drop-zeros (suc k) n (suc m) e = drop-zeros k n m (omega arith)

module _ (bus : Bus) (full : FullDuplex bus) (s : Spi bus.Device)
    (l_tx : length s.tx_buf ≡ size_buf) (l_rx : length s.rx_buf ≡ size_buf) where
  -- What is received for the bytes that are sent, and the device after that.
  abbrev pub received : List ℕ → List ℕ
  received sent = (bus.spi_transceive s.device s.frequency sent).0

  abbrev pub device_after : List ℕ → bus.Device
  device_after sent = (bus.spi_transceive s.device s.frequency sent).1

  -- The state after a transfer of the bytes `sent` at the front of `filled`.
  abbrev pub transferred : List ℕ → List ℕ → Spi bus.Device
  transferred sent filled = record s {
    tx_buf = filled;
    rx_buf = received sent ++ drop (length (received sent)) s.rx_buf;
    device = device_after sent;
  }

  transfer_lem :
      (sent rest : List ℕ) (n : ℕ)
      → length sent ≡ n
      → n ≤ size_buf
      → transfer bus s (sent ++ rest) n ≡ some (transferred sent (sent ++ rest))
  unfolding transfer
  transfer_lem sent rest n l fits =
      let front : read_at (sent ++ rest) 0 n ≡ some sent =
        read_at_split (sent ++ rest) [] sent rest 0 n refl refl (sym l) in
      let back : length (received sent) ≡ length sent = full s.device s.frequency sent in
      ground arith

  writetospi_run :
      (header body : List ℕ) {tx1 tx2 : List ℕ} {after : Spi bus.Device}
      → write_at s.tx_buf 0 header ≡ some tx1
      → write_at tx1 (length header) body ≡ some tx2
      → transfer bus s tx2 (length header + length body) ≡ some after
      → writetospi bus s (length header) header (length body) body ≡ some (pos 0, after)
  unfolding writetospi
  writetospi_run header body a b c =
      let h : read_at header 0 (length header) ≡ some header =
        read_at_split header [] header [] 0 (length header) (sym (append-nil header)) refl refl in
      let k : read_at body 0 (length body) ≡ some body =
        read_at_split body [] body [] 0 (length body) (sym (append-nil body)) refl refl in
      ground arith

  module _ (header body : List ℕ) (fits : length header + length body ≤ size_buf) where
    abbrev behind : List ℕ
    behind = drop (length body) (drop (length header) s.tx_buf)

    header_written : write_at s.tx_buf 0 header ≡ some (header ++ drop (length header) s.tx_buf)
    header_written = ground arith

    body_written :
        write_at (header ++ drop (length header) s.tx_buf) (length header) body
        ≡ some ((header ++ body) ++ behind)
    body_written =
        write_at_split (header ++ drop (length header) s.tx_buf) header
          (take (length body) (drop (length header) s.tx_buf)) behind body
          ((header ++ body) ++ behind) (length header)
          (ap (λ r. header ++ r)
            (sym (take-append-drop (length body) (drop (length header) s.tx_buf))))
          refl
          (omega (
            arith,
            length-take (length body) (drop (length header) s.tx_buf),
            length-drop (length header) s.tx_buf,
          ))
          (sym (append_assoc header body behind))

    -- A write of at most 255 bytes sends the header and then the body in one exchange at the
    -- selected rate, and returns 0.
    pub writetospi_lem :
        writetospi bus s (length header) header (length body) body
        ≡ some (pos 0, transferred (header ++ body) ((header ++ body) ++ behind))
    writetospi_lem = writetospi_run header body header_written body_written (
        transfer_lem (header ++ body) behind (length header + length body)
          (length-append header body) fits)

  -- A longer one is written beyond the buffer.
  pub writetospi_overrun :
      (header body : List ℕ)
      → size_buf < length header + length body
      → writetospi bus s (length header) header (length body) body ≡ none
  unfolding writetospi
  writetospi_overrun header body over = ground (
    arith,
    take_all (length header) header,
    take_all (length body) body,
    length-append header (drop (length header) s.tx_buf),
    length-drop (length header) s.tx_buf,
  )

  readfromspi_run :
      (header : List ℕ) (n : ℕ) (buffer : List ℕ) {tx1 tx2 body out : List ℕ}
      {after : Spi bus.Device}
      → write_at s.tx_buf 0 (zeros (length header + n)) ≡ some tx1
      → write_at tx1 0 header ≡ some tx2
      → transfer bus s tx2 (length header + n) ≡ some after
      → read_at after.rx_buf (length header) n ≡ some body
      → write_at buffer 0 body ≡ some out
      → readfromspi bus s (length header) header n buffer ≡ some (pos 0, out, after)
  unfolding readfromspi
  readfromspi_run header n buffer a b c e f =
      let h : read_at header 0 (length header) ≡ some header =
        read_at_split header [] header [] 0 (length header) (sym (append-nil header)) refl refl in
      ground arith

  module _ (header : List ℕ) (n : ℕ) (fits : length header + n ≤ size_buf) where
    abbrev request : List ℕ
    request = header ++ zeros n

    length-request : length request ≡ length header + n
    length-request = omega (arith, length-append header (zeros n), length-zeros n)

    abbrev tail : List ℕ
    tail = drop (length (zeros (length header + n))) s.tx_buf

    cleared :
        write_at s.tx_buf 0 (zeros (length header + n)) ≡ some (zeros (length header + n) ++ tail)
    cleared = ground (arith, length-zeros (length header + n))

    requested : write_at (zeros (length header + n) ++ tail) 0 header ≡ some (request ++ tail)
    requested =
        write_at_split (zeros (length header + n) ++ tail) []
          (take (length header) (zeros (length header + n))) (zeros n ++ tail) header
          (request ++ tail) 0
          (ap (λ z. z ++ tail)
              (sym (take-append-drop (length header) (zeros (length header + n)))
                ∙ ap (λ z. take (length header) (zeros (length header + n)) ++ z)
                    (drop-zeros (length header) n (length header + n) refl))
            ∙ append_assoc (take (length header) (zeros (length header + n))) (zeros n) tail)
          refl
          (omega (
            arith,
            length-take (length header) (zeros (length header + n)),
            length-zeros (length header + n),
          ))
          (sym (append_assoc header (zeros n) tail))

    length-received : length (received request) ≡ length header + n
    length-received = full s.device s.frequency request ∙ length-request

    answered :
        read_at (transferred request (request ++ tail)).rx_buf (length header) n
        ≡ some (drop (length header) (received request))
    answered =
        read_at_split (received request ++ drop (length (received request)) s.rx_buf)
          (take (length header) (received request)) (drop (length header) (received request))
          (drop (length (received request)) s.rx_buf) (length header) n
          (ap (λ z. z ++ drop (length (received request)) s.rx_buf)
              (sym (take-append-drop (length header) (received request)))
            ∙ append_assoc (take (length header) (received request))
                (drop (length header) (received request))
                (drop (length (received request)) s.rx_buf))
          (omega (arith, length-take (length header) (received request), length-received))
          (omega (arith, length-drop (length header) (received request), length-received))

    -- A read of `n` bytes behind a header, 255 together at most, sends the header and `n` zero
    -- bytes in one exchange; what comes in behind the header fills the front of the caller's
    -- buffer, and the result is 0.
    pub readfromspi_lem :
        (buffer : List ℕ)
        → n ≤ length buffer
        → readfromspi bus s (length header) header n buffer
          ≡ some (
            pos 0,
            drop (length header) (received request) ++ drop n buffer,
            transferred request (request ++ tail),
          )
    readfromspi_lem buffer room =
        let body = drop (length header) (received request) in
        let size : length body ≡ n =
          omega (arith, length-drop (length header) (received request), length-received) in
        readfromspi_run header n buffer cleared requested
          (transfer_lem request tail (length header + n) length-request fits) answered
          (write_at_split buffer [] (take n buffer) (drop n buffer) body (body ++ drop n buffer) 0
            (sym (take-append-drop n buffer)) refl (omega (arith, length-take n buffer, size)) refl)
