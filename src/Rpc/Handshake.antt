-- ===== src/Rpc/Handshake.antt =====
-- When the device under the connection makes a handshake.
use fidinventor.Base.{◌≡◌, refl, ap, Bool, true, false, List, [], ◌∷◌, ◌++◌, if◌then◌else◌}
use fidinventor.Rpc.Device.{
  Role, server, client, Event, shakes, reads_ssl, reads_plain, writes_ssl, writes_plain, Device,
  new_device, after_handshake, Use, to_read, to_write, use_all,
}

-- The role in which a first use makes the handshake: who reads first is the server.
abbrev pub role_of : Use → Role
role_of (to_read n) = server
role_of (to_write s) = client

-- A use that needs no handshake.
abbrev pub plain_event : Use → Event
plain_event (to_read n) = reads_plain n
plain_event (to_write s) = writes_plain s

abbrev pub ssl_event : Use → Event
ssl_event (to_read n) = reads_ssl n
ssl_event (to_write s) = writes_ssl s

abbrev pub each_event : (Use → Event) → List Use → List Event
each_event event [] = []
each_event event (u ∷ us) = event u ∷ each_event event us

-- What is done to the stream of a new device: with no encryption the uses alone; with it one handshake
-- before the first use, in the role of that use, and then the uses.
abbrev pub expected_events : (Role → Bool) → Bool → List Use → List Event
expected_events succeeds false us = each_event plain_event us
expected_events succeeds true [] = []
expected_events succeeds true (u ∷ us) =
    shakes (role_of u)
    ∷ (if succeeds (role_of u) then each_event ssl_event (u ∷ us) else each_event ssl_event us)

-- A device that encrypts, behind its handshake.
abbrev shaken_device : Device
shaken_device = record { use_ssl = true; need_handshake = false }

module _ (succeeds : Role → Bool) where
  use_all-plain :
      (us : List Use)
      → use_all succeeds us (record { use_ssl = false; need_handshake = false })
        ≡ each_event plain_event us
  unfolding use_all
  use_all-plain [] = refl
  use_all-plain (to_read n ∷ us) = ap (λ l. reads_plain n ∷ l) (use_all-plain us)
  use_all-plain (to_write s ∷ us) = ap (λ l. writes_plain s ∷ l) (use_all-plain us)

  use_all-shaken : (us : List Use) → use_all succeeds us shaken_device ≡ each_event ssl_event us
  unfolding use_all
  use_all-shaken [] = refl
  use_all-shaken (to_read n ∷ us) = ap (λ l. reads_ssl n ∷ l) (use_all-shaken us)
  use_all-shaken (to_write s ∷ us) = ap (λ l. writes_ssl s ∷ l) (use_all-shaken us)

  -- The first use of a device that encrypts, by whether the handshake succeeds.
  shaken :
      (role : Role) (event : Device → Event) (us : List Use) (b : Bool)
      → (after_handshake succeeds
            (record { device = shaken_device; events = shakes role ∷ []; went = b })
            event).events
          ++ use_all succeeds us
              (after_handshake succeeds
                (record { device = shaken_device; events = shakes role ∷ []; went = b })
                event).device
        ≡ shakes role
          ∷ (if b then event shaken_device ∷ each_event ssl_event us else each_event ssl_event us)
  shaken role event us true = ap (λ l. shakes role ∷ event shaken_device ∷ l) (use_all-shaken us)
  shaken role event us false = ap (λ l. shakes role ∷ l) (use_all-shaken us)

  first_use :
      (u : Use) (us : List Use)
      → use_all succeeds (u ∷ us) (record { use_ssl = true; need_handshake = true })
        ≡ expected_events succeeds true (u ∷ us)
  unfolding use_all
  first_use (to_read n) us =
      shaken server (λ x. if x.use_ssl then reads_ssl n else reads_plain n) us (succeeds server)
  first_use (to_write s) us =
      shaken client (λ x. if x.use_ssl then writes_ssl s else writes_plain s) us (succeeds client)

  -- What is done to the stream of a new device, whatever the uses: without encryption the uses in
  -- plain, with no handshake; with encryption exactly one handshake, before anything else, as the client
  -- where the first use writes and as the server where it reads, and then the uses, encrypted. Where the
  -- handshake throws, the first use is left out, and the handshake is not made again.
  pub use_all-new :
      (use_ssl : Bool) (us : List Use)
      → use_all succeeds us (new_device use_ssl) ≡ expected_events succeeds use_ssl us
  unfolding new_device
  use_all-new false us = use_all-plain us
  use_all-new true [] = unfold use_all in refl
  use_all-new true (u ∷ us) = first_use u us
