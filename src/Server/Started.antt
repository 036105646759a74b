-- ===== src/Server/Started.antt =====
-- What it takes for the driver to come up.
use per_node_csi_driver.Prelude.{
  ◌≡◌, ap, ◌∙◌, ◌⊎◌, none, some, [], ◌++◌, Text, codes, arith, inl, inr, Option-cases,
}
use per_node_csi_driver.Prelude.{text_eq, text_beq_iff}
use per_node_csi_driver.Prelude.Exec.{ok}
use per_node_csi_driver.Text.{cut_prefix}
use per_node_csi_driver.Text.Join.{cut_prefix_sound, cut_prefix-append}
use per_node_csi_driver.Host.{Host}
use per_node_csi_driver.Host.Laws.{errno_of}
use per_node_csi_driver.Driver.{Driver, Settings}
use per_node_csi_driver.Calls.{start}
use per_node_csi_driver.Server.{
  Network, Addresses, endpoint_scheme, take_socket, remove_socket, metrics_listen, bring_up,
  new_server_on, new_server,
}

module _ (H : Host) (N : Network H) (cfg : Settings) (a : Addresses) where
  -- The machine after the store was made, after the old socket was removed, and after the driver
  -- began to listen on its socket.
  abbrev pub made : H.State → H.State
  made s = (H.mkdir_all cfg.root 493 s).1

  abbrev pub cleaned : Text → H.State → H.State
  cleaned socket s = (H.remove socket (made s)).1

  abbrev pub listening : Text → H.State → H.State
  listening socket s = (N.listen (codes "unix") socket (cleaned socket s)).1

  -- What the kernel has to grant: the directory of the store (mode 0755), the removal of the old
  -- socket where there is one, the socket, and the address of the metrics where one is given.
  abbrev pub Grants : Text → H.State → Type 0
  Grants socket s =
      ((H.mkdir_all cfg.root 493 s).0 ≡ ok tt)
      × (((H.remove socket (made s)).0 ≡ ok tt) ⊎ (errno_of (H.remove socket (made s)).0 ≡ 2))
      × ((N.listen (codes "unix") socket (cleaned socket s)).0 ≡ ok tt)
      × ((a.metrics ≡ [])
          ⊎ ((N.listen (codes "tcp") a.metrics (start H cfg (listening socket s)).os).0 ≡ ok tt))

  new_server_on-Grants :
      (socket : Text) (s : H.State) {d : Driver H}
      → (new_server_on H N cfg a (some socket) s).0 ≡ ok d
      → Grants socket s × (d.holds ≡ (start H cfg (listening socket s)).holds)
  unfolding new_server_on take_socket remove_socket bring_up metrics_listen
  new_server_on-Grants socket s h = ground (arith, text_beq_iff a.metrics [])

  new_server_on-up :
      (socket : Text) (s : H.State)
      → Grants socket s
      → (d : Driver H) × ((new_server_on H N cfg a (some socket) s).0 ≡ ok d)
  unfolding new_server_on take_socket remove_socket bring_up metrics_listen
  new_server_on-up socket s g =
      let e = start H cfg (listening socket s) in
      (
        record e { os = (metrics_listen H N cfg a.metrics e.os).1 },
        ground (arith, text_beq_iff a.metrics []),
      )

  new_server_on-none : (s : H.State) {d : Driver H} → ¬ ((new_server_on H N cfg a none s).0 ≡ ok d)
  unfolding new_server_on
  new_server_on-none s h = cc

  -- A driver comes up exactly where its endpoint is `unix://` and a socket, it could make the
  -- directory of the store, the old socket was removed or not there, it could listen on the socket,
  -- and it could listen on the address of the metrics if one is given. It then holds what `start`
  -- takes back from the disk.
  pub new_server-start :
      (s : H.State)
      → ((d : Driver H)
          → (new_server H N cfg a s).0 ≡ ok d
          → (socket : Text) × (a.endpoint ≡ codes "unix://" ++ socket)
            × Grants socket s
            × (d.holds ≡ (start H cfg (listening socket s)).holds))
        × ((socket : Text)
            → a.endpoint ≡ codes "unix://" ++ socket
            → Grants socket s
            → (d : Driver H) × ((new_server H N cfg a s).0 ≡ ok d))
  unfolding new_server endpoint_scheme
  new_server-start s = (
    λ d h. elim (Option-cases (cut_prefix a.endpoint (codes "unix://"))) [
      | inl e ↦ absurd (new_server_on-none s (rw e at h))
      | inr (socket, e) ↦
          let (grants, holds) = new_server_on-Grants socket s (rw e at h) in
          (socket, cut_prefix_sound a.endpoint (codes "unix://") socket e, grants, holds)
    ],
    λ socket e g.
        let (d, up) = new_server_on-up socket s g in
        let cut : cut_prefix a.endpoint (codes "unix://") ≡ some socket =
          ap (λ x. cut_prefix x (codes "unix://")) e ∙ cut_prefix-append (codes "unix://") socket in
        (d, ap (λ found. (new_server_on H N cfg a found s).0) cut ∙ up),
  )
