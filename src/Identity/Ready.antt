-- ===== src/Identity/Ready.antt =====
-- What Probe reports, and what it leaves.
use per_node_csi_driver.Prelude.{◌≡◌, refl, ◌∙◌, ap, ◌⊎◌, inl, inr, true, false, Text, codes}
use per_node_csi_driver.Prelude.Exec.{Result, ok, err}
use per_node_csi_driver.Host.{Fault, Host}
use per_node_csi_driver.Host.Files.{FileTable}
use per_node_csi_driver.Identity.{store_is_writeable, probed, probe}

module _ (H : Host) (F : FileTable H) where
  open F use {is_there}

  probed-keeps :
      (store path : Text) (s : H.State) (result : Result Fault Text)
      → (H.create_temp store (codes ".probe-") s).0 ≡ result
      → is_there s path ≡ true
      → is_there (probed H result (H.create_temp store (codes ".probe-") s).1).1 path ≡ true
  unfolding probed
  probed-keeps store path s (err fault) e there =
      F.create_temp_removes_nothing store (codes ".probe-") path s there
  probed-keeps store path s (ok name) e there =
      F.remove_elsewhere name path _
        (λ same. cc (F.create_temp_new store (codes ".probe-") name s e, same, there))
      ∙ F.create_temp_removes_nothing store (codes ".probe-") path s there

  probed-ready :
      (store : Text) (s : H.State) (result : Result Fault Text)
      → (H.create_temp store (codes ".probe-") s).0 ≡ result
      → let (ready, t) = probed H result (H.create_temp store (codes ".probe-") s).1 in
        ((ready ≡ true) × ((name : Text) × ((H.create_temp store (codes ".probe-") s).0 ≡ ok name)))
        ⊎ ((ready ≡ false)
            × ((fault : Fault) × ((H.create_temp store (codes ".probe-") s).0 ≡ err fault)))
  unfolding probed
  probed-ready store s (err fault) e = inr (refl, (fault, e))
  probed-ready store s (ok name) e = inl (refl, (name, e))

  -- Probe never fails: it reports ready where a file could be made in the store, it reports not
  -- ready where the store refused the file, and these are all the cases. Whatever was there before it
  -- is there still.
  pub probe-ready :
      (store path : Text) (s : H.State)
      → let (result, t) = probe H store s in
        (((result ≡ ok (record { ready = true }))
            × ((name : Text) × ((H.create_temp store (codes ".probe-") s).0 ≡ ok name)))
          ⊎ ((result ≡ ok (record { ready = false }))
              × ((fault : Fault) × ((H.create_temp store (codes ".probe-") s).0 ≡ err fault))))
        × (is_there s path ≡ true → is_there t path ≡ true)
  unfolding probe store_is_writeable
  probe-ready store path s = (
    elim (probed-ready store s _ refl) [
      | inl (e, made) ↦ inl (ap (λ ready. ok (record { ready = ready })) e, made)
      | inr (e, refused) ↦ inr (ap (λ ready. ok (record { ready = ready })) e, refused)
    ],
    probed-keeps store path s _ refl,
  )
