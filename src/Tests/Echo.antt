-- ===== src/Tests/Echo.antt =====
-- The SPI layer on a bus that sends back what it gets, one higher.
use tdoa.Base.{ℕ, ◌≡◌, refl, ap, suc, true, some, List, [], ◌∷◌, arith, length, replicate, pos}
use tdoa.Spi.{Bus, FullDuplex, Spi, readfromspi}
use tdoa.Spi.Transfer.{transferred, readfromspi_lem}

abbrev raise : List ℕ → List ℕ
raise [] = []
raise (b ∷ bs) = suc b ∷ raise bs

length-raise : (bs : List ℕ) → length (raise bs) ≡ length bs
length-raise [] = refl
length-raise (b ∷ bs) = ap suc (length-raise bs)

abbrev pub echo : Bus
echo = record {
  Device = ℕ;
  device_is_ready = λ _. true;
  spi_transceive = λ device _ sent. (raise sent, suc device);
}

echo-FullDuplex : FullDuplex echo
echo-FullDuplex = λ _ _ sent. length-raise sent

abbrev pub idle : Spi ℕ
idle = record {
  config = 0;
  frequency = 2000000;
  tx_buf = replicate 255 0;
  rx_buf = replicate 255 0;
  device = 0;
}

readfromspi_lem_example :
    readfromspi echo idle 1 (5 ∷ []) 2 (3 ∷ 3 ∷ 3 ∷ [])
    ≡ some (
      pos 0,
      1 ∷ 1 ∷ 3 ∷ [],
      transferred echo echo-FullDuplex idle refl refl
          (5 ∷ 0 ∷ 0 ∷ [])
          (5 ∷ 0 ∷ 0 ∷ replicate 252 0),
    )
readfromspi_lem_example =
    readfromspi_lem echo echo-FullDuplex idle refl refl (5 ∷ []) 2 (omega arith) (3 ∷ 3 ∷ 3 ∷ [])
      (omega arith)
