-- ===== src/Lease.antt =====
-- What the driver promises of its handles, without the machine: a handle is leased to one pod at a
-- time. The order in which the map of the holds keeps its entries is forgotten.
pub mod Implemented
use per_node_csi_driver.Prelude.{
  ◌≡◌, refl, sym, subst, inl, inr, Bool-cases, ◌≢◌, Option, none, some, List, [], ◌∷◌, Text, arith,
  ◌==◌, text_eq, text_beq_iff, All, if◌then◌else◌,
}
use per_node_csi_driver.Host.{Hold}

-- The handle is held by the pod with this uid, at some target.
abbrev pub HeldBy : Text → Option Hold → Type 0
HeldBy uid none = ⊥
HeldBy uid (some standing) = standing.pod_uid ≡ uid

-- The pod that each handle is leased to, and its target.
abbrev pub Leases : Type 0
Leases = Text → Option Hold

abbrev pub set : Text → Option Hold → Leases → Leases
set handle lease m other = if handle == other then lease else m other

-- Nobody has the handle, or the pod itself.
abbrev pub IsFreeFor : Text → Option Hold → Type 0
IsFreeFor uid none = Unit
IsFreeFor uid (some standing) = standing.pod_uid ≡ uid

-- Nobody has the handle, or a pod at this target.
abbrev pub IsOnlyAt : Text → Option Hold → Type 0
IsOnlyAt target none = Unit
IsOnlyAt target (some standing) = standing.target ≡ target

-- What a call does to the leases.
pub data Grant : Type 0 where
  nothing : Grant
  take : Text → Hold → Grant
  give_back : Text → Text → Grant

-- What a call may do to the leases.
pub data Step : Grant → Leases → Leases → Type 0 where
  stays : {m : Leases} → Step nothing m m
  takes :
      {m : Leases} (handle : Text) (lease : Hold)
      → IsFreeFor lease.pod_uid (m handle)
      → Step (take handle lease) m (set handle (some lease) m)
  gives_back :
      {m : Leases} (handle target : Text)
      → IsOnlyAt target (m handle)
      → Step (give_back handle target) m (set handle none m)

pub data Steps : List Grant → Leases → Leases → Type 0 where
  no_more : {m : Leases} → Steps [] m m
  next :
      {g : Grant} {others : List Grant} {m n o : Leases}
      → Step g m n
      → Steps others n o
      → Steps (g ∷ others) m o

-- The handle is not given back.
abbrev pub Leaves : Text → Grant → Type 0
Leaves handle nothing = Unit
Leaves handle (take other lease) = Unit
Leaves handle (give_back other target) = other ≢ handle

same_holder :
    (uid other : Text) (standing : Option Hold)
    → IsFreeFor other standing
    → HeldBy uid standing
    → other ≡ uid
same_holder uid other none free held = absurd held
same_holder uid other (some standing) free held = cc

Step-HeldBy :
    (handle uid : Text) (g : Grant) (m n : Leases)
    → Step g m n
    → Leaves handle g
    → HeldBy uid (m handle)
    → HeldBy uid (n handle)
Step-HeldBy handle uid g m n stays leaves held = held
Step-HeldBy handle uid g m n (takes other lease free) leaves held =
    elim (Bool-cases (other == handle)) [
      | inr differs ↦ rw differs held
      | inl same ↦
          let e = (text_beq_iff other handle).0 same in
          rw same (
            same_holder uid lease.pod_uid (m other) free
              (subst (λ h. HeldBy uid (m h)) (sym e) held))
    ]
Step-HeldBy handle uid g m n (gives_back other target only) leaves held =
    ground (arith, text_beq_iff other handle)

-- As long as a handle is not given back, it stays leased to the pod that has it.
pub Steps-HeldBy :
    (handle uid : Text) (grants : List Grant) (m n : Leases)
    → Steps grants m n
    → All (Leaves handle) grants
    → HeldBy uid (m handle)
    → HeldBy uid (n handle)
Steps-HeldBy handle uid grants m n no_more leaves held = held
Steps-HeldBy handle uid grants m n (next {g} {others} {n = k} step steps) (leave, leaves) held =
    Steps-HeldBy handle uid others k n steps leaves (Step-HeldBy handle uid g m k step leave held)
