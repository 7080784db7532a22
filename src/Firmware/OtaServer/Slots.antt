-- ===== src/Firmware/OtaServer/Slots.antt =====
-- The update partition over a push of apps/bolty-esp32/src/ota_server.rs: what ESP-IDF's calls do to
-- it, and what a push must leave of it.
use bolty_rs.Prelude.{
  ℕ, ◌≤◌, ◌<◌, ◌≡◌, refl, ◌⊎◌, Bool, true, false, Option, none, some, List, [], ◌++◌, Result, ok,
  err, if◌then◌else◌, arith, length, take,
}
use bolty_rs.Prelude.Act.{Outcome}
use bolty_rs.Prelude.Text.{Text}
use bolty_rs.Firmware.OtaHeader.{token_len}
use bolty_rs.Firmware.OtaHeader.Gate.{Entitled}
use bolty_rs.Firmware.OtaServer.{OtaHost, announced_size, checked_call, checked_read}

-- The update partition: no handle, a handle with the bytes written, an image that was verified, and
-- one that will boot.
pub data Slot : Type 0 where
  closed : Slot
  opened verified booting : List ℕ → Slot

module _ {C : Type 0} (host : OtaHost C) (slot : C → Slot) where
  -- What ESP-IDF documents of its update calls, and the socket of `read_exact`.
  pub record IsOtaHost : Type 0 where
    pub read_law : (c : C) (n : ℕ) → slot (host.read_exact c n).0 ≡ slot c
    pub read_length :
        (c : C) (n : ℕ) (bs : List ℕ) → (host.read_exact c n).1 ≡ some bs → length bs ≡ n
    pub begin_law :
        (c : C)
        → slot c ≡ closed
        → slot (host.esp_ota_begin c).0 ≡ (if (host.esp_ota_begin c).1 then opened [] else closed)
    pub write_law :
        (c : C) (bs out : List ℕ)
        → slot c ≡ opened out
        → (host.esp_ota_write c bs).1 ≡ true
        → slot (host.esp_ota_write c bs).0 ≡ opened (out ++ bs)
    pub abort_law : (c : C) → slot (host.esp_ota_abort c) ≡ closed
    pub end_law :
        (c : C) (out : List ℕ)
        → slot c ≡ opened out
        → slot (host.esp_ota_end c).0 ≡ (if (host.esp_ota_end c).1 then verified out else closed)
    pub boot_law :
        (c : C) (out : List ℕ)
        → slot c ≡ verified out
        → slot (host.esp_ota_set_boot_partition c).0
          ≡ (if (host.esp_ota_set_boot_partition c).1 then booting out else verified out)

-- A call that answers whether it was done, of which the two answers are known.
module _ {C : Type 0} (slot : C → Slot) (Q X : Slot → Type 0) (message : Text) where
  pub called :
      (p : C × Bool)
      → (p.1 ≡ true → Q (slot p.0))
      → (p.1 ≡ false → X (slot p.0))
      → Outcome slot (λ _. Q) X (checked_call message p)
  unfolding Outcome checked_call
  called (c, true) h k = h refl
  called (c, false) h k = k refl

module _ {C : Type 0} (slot : C → Slot) (Q : List ℕ → Slot → Type 0) (X : Slot → Type 0) where
  pub has_read :
      (message : Text) (p : C × Option (List ℕ))
      → ((bs : List ℕ) → p.1 ≡ some bs → Q bs (slot p.0))
      → X (slot p.0)
      → Outcome slot Q X (checked_read message p)
  unfolding Outcome checked_read
  has_read message (c, some bs) h k = h bs refl
  has_read message (c, none) h k = k

-- A handle with `n` bytes, and an image of `n` bytes that will boot
unfoldable pub Wrote : ℕ → Slot → Type 0
Wrote n s = (out : List ℕ) × (length out ≡ n) × (s ≡ opened out)

unfoldable pub Verified : ℕ → Slot → Type 0
Verified n s = (out : List ℕ) × (length out ≡ n) × (s ≡ verified out)

unfoldable pub Boots : ℕ → Slot → Type 0
Boots n s = (out : List ℕ) × (length out ≡ n) × (s ≡ booting out)

pub wrote : (n : ℕ) (s : Slot) (out : List ℕ) → length out ≡ n → s ≡ opened out → Wrote n s
unfolding Wrote
wrote n s out long is = (out, long, is)

-- No handle is left, and the image will not boot.
unfoldable pub Harmless : Slot → Type 0
Harmless s = (s ≡ closed) ⊎ ((out : List ℕ) × (s ≡ verified out))

unfoldable pub Anything : Slot → Type 0
Anything s = Unit {0}

pub anything : (s : Slot) → Anything s
unfolding Anything
anything s = tt

module _ {C A V : Type 0} (view : C → V) (X : V → Type 0) (Q R : A → V → Type 0) where
  pub weaker :
      (p : C × Result Text A)
      → Outcome view Q X p
      → ((a : A) (v : V) → Q a v → R a v)
      → Outcome view R X p
  unfolding Outcome
  weaker (c, ok a) h k = k a (view c) h
  weaker (c, err e) h k = h

module _ {C : Type 0} (host : OtaHost C) where
  unfoldable pub FitsPartition : ℕ → Type 0
  FitsPartition size =
      (partition_size : ℕ) × (host.next_update_partition ≡ some partition_size)
      × (0 < size)
      × (size ≤ partition_size)

  -- The header `p` that was read, and the 32 bytes that come next
  unfoldable pub IsPushed : Option (List ℕ) → C × Option (List ℕ) → Slot → Type 0
  IsPushed expected p s =
      (header : List ℕ) × (p.1 ≡ some header)
      × FitsPartition (announced_size header)
      × Entitled (take 4 header) (host.read_exact p.0 token_len).1 expected
      × Boots (announced_size header) s

pub without_token :
    (magic : List ℕ) (token expected : Option (List ℕ))
    → Entitled magic none expected
    → Entitled magic token expected
unfolding Entitled
without_token magic token (some want) h = ground (arith, h)
without_token magic token none h = h
