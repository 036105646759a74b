-- ===== src/Concurrent/Apart/Calls.antt =====
-- What becomes of a handle while other handles are published and unpublished at the same time.
use per_node_csi_driver.Prelude.{ℕ, ◌≡◌, refl, subst, Option, List, ◌∷◌, map, Text, All}
use per_node_csi_driver.Prelude.Exec.{Result}
use per_node_csi_driver.Status.{Status}
use per_node_csi_driver.Host.{Host, Hold}
use per_node_csi_driver.Map.{lookup}
use per_node_csi_driver.Driver.{Driver, Settings}
use per_node_csi_driver.Calls.{Call, publish, unpublish, stats, pass}
use per_node_csi_driver.Concurrent.Schedule.{interleave}
use per_node_csi_driver.Concurrent.Operations.{serve}
use per_node_csi_driver.Concurrent.Apart.{Follows, FirstDone, Leaves-Follows, interleave-Follows}
use per_node_csi_driver.Concurrent.Apart.Leaves.{hold_of}
use per_node_csi_driver.Concurrent.Apart.Elsewhere.{IsElsewhere, serve-Leaves, serve-All_leave}
use per_node_csi_driver.Concurrent.Apart.Takes.{MayTake, Took, node_publish_volume-Publishes}
use per_node_csi_driver.Concurrent.Apart.Gives.{MayGive, Gave, node_unpublish_volume-Unpublishes}

-- If the call takes or gives up a handle, then this one.
abbrev pub IsAbout : Text → Call → Type 0
IsAbout h (publish r) = r.volume_id ≡ h
IsAbout h (unpublish r) = r.volume_id ≡ h
IsAbout h (stats r) = Unit
IsAbout h (pass objects) = Unit

-- What the call may have made of the hold of its handle.
abbrev pub May : Call → Option Hold → Option Hold → Type 0
May (publish r) = MayTake r
May (unpublish r) = MayGive r
May (stats r) = λ before now. now ≡ before
May (pass objects) = λ before now. now ≡ before

-- What the call says of the hold when it returns.
abbrev pub Says : Call → Option Hold → Result Status Unit → Option Hold → Type 0
Says (publish r) = Took r
Says (unpublish r) = Gave r
Says (stats r) = λ before result now. now ≡ before
Says (pass objects) = λ before result now. now ≡ before

module _ (H : Host) (cfg : Settings) (h : Text) where
  serve-Follows :
      (c : Call) (before : Option Hold)
      → IsAbout h c
      → Follows (hold_of {H = H} h) (May c before) (Says c before) before (serve H cfg c)
  unfolding serve
  serve-Follows (publish r) before e =
      subst
        (λ k.
          Follows (hold_of {H = H} k) (MayTake r before) (Took r before) before
            (serve H cfg (publish r)))
        e (node_publish_volume-Publishes H cfg r before)
  serve-Follows (unpublish r) before e =
      subst
        (λ k.
          Follows (hold_of {H = H} k) (MayGive r before) (Gave r before) before
            (serve H cfg (unpublish r)))
        e (node_unpublish_volume-Unpublishes H cfg r before)
  serve-Follows (stats r) before e =
      Leaves-Follows (hold_of h) _ _ before _ refl (λ a. refl) (serve-Leaves H cfg h (stats r) tt)
  serve-Follows (pass objects) before e =
      Leaves-Follows (hold_of h) _ _ before _ refl (λ a. refl)
        (serve-Leaves H cfg h (pass objects) tt)

  -- As long as one call at a time takes or gives up a handle, calls for other handles and passes of
  -- the sweep do not disturb it, however the accesses of all come between one another. At any moment
  -- the handle is held as before, or a publish has taken it for its pod, which it does only if nobody
  -- else held it, or an unpublish has given it up, which it does only if nobody held it at another
  -- target. Once a publish has returned no error, its pod holds the handle at its target; once an
  -- unpublish has, the hold is gone if it named the target and as before if it named another; and
  -- after an error the hold is as it was before.
  pub interleave-Says :
      (c : Call) (others : List Call) (turns : List ℕ) (d : Driver H)
      → IsAbout h c
      → All (IsElsewhere H cfg h) others
      → let (e, threads) = interleave turns d (map (serve H cfg) (c ∷ others)) in
        May c (lookup h d.holds) (lookup h e.holds)
        × FirstDone (hold_of h) (Says c (lookup h d.holds)) (lookup h e.holds) threads
  interleave-Says c others turns d about all =
      interleave-Follows (hold_of h) (May c (lookup h d.holds)) (Says c (lookup h d.holds)) turns d
        (map (serve H cfg) (c ∷ others))
        (serve-Follows c (lookup h d.holds) about, serve-All_leave H cfg h others all)
