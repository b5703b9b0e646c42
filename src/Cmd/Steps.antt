-- ===== src/Cmd/Steps.antt =====
-- The steps that the commands share: what is read, and what is written.
use isotope.Base.{◌⊎◌, refl, String, ◌≡◌, ap, Option-cases, some, inl, inr, arith}
use isotope.Base.Dict.{lookup, insert}
use isotope.Base.Result.{Result, ok, err, ok-injective}
use isotope.Runtime.{Runtime}
use isotope.Json.{Json}
use isotope.Ghodss.{Ghodss}
use isotope.Graph.{ServiceGraph}
use isotope.Graph.Svc.Unmarshal.{initial}
use isotope.Graph.Unmarshal.{unmarshal_json}
use isotope.Kubernetes.Types.{Yaml}
use isotope.Cmd.{
  Disk, writes, refuses, cuts, CmdError, Files, map_err, invalid_graph, unmarshal_yaml, read_graph,
  write_file,
}

pub map_err-ok :
    {E F A : Type 0} (f : E → F) (r : Result E A) {a : A} → map_err f r ≡ ok a → r ≡ ok a
map_err-ok f (ok a) h = ap ok (ok-injective h)
map_err-ok f (err e) h = cc

module _ (R : Runtime) (Y : Ghodss) where
  -- The graph that a command reads from a file.
  abbrev pub Reads : Files → String → ServiceGraph → Type 0
  Reads files path sg =
      (text : String) × (j : Json) × (lookup files path ≡ some text)
      × (Y.to_json text ≡ some j)
      × ((unmarshal_json R j initial).0 ≡ ok sg)

pub Disk-cases : (d : Disk) → (d ≡ writes) ⊎ (d ≡ refuses) ⊎ ((left : String) × (d ≡ cuts left))
Disk-cases writes = inl refl
Disk-cases refuses = inr (inl refl)
Disk-cases (cuts left) = inr (inr (left, refl))

module _ (R : Runtime) (Y : Ghodss) (K : Yaml) (disk : String → Disk) where
  pub write_file-Writes :
      (files : Files) (path text : String) {written : Files}
      → write_file R Y K disk files path text ≡ ok written
      → (disk path ≡ writes) × (written ≡ insert files path text)
  unfolding write_file
  write_file-Writes files path text h = elim (Disk-cases (disk path)) [
    | inl e ↦ (e, ground (arith, h, e))
    | inr (inl e) ↦ absurd (ground (arith, h, e))
    | inr (inr (left, e)) ↦ absurd (ground (arith, h, e))
  ]

  pub write_file-ok :
      (files : Files) (path text : String)
      → disk path ≡ writes
      → write_file R Y K disk files path text ≡ ok (insert files path text)
  unfolding write_file
  write_file-ok files path text w = rw (w, write_file) refl

  pub read_graph-Reads :
      (files : Files) (path : String) {sg : ServiceGraph}
      → read_graph R Y K disk files path ≡ ok sg
      → Reads R Y files path sg
  unfolding read_graph unmarshal_yaml
  read_graph-Reads files path h = elim (Option-cases (lookup files path)) [
    | inl e ↦ absurd (ground (arith, h, e))
    | inr (text, e) ↦ elim (Option-cases (Y.to_json text)) [
      | inl f ↦ absurd (ground (arith, h, e, f))
      | inr (j, f) ↦ (
        text,
        j,
        e,
        f,
        map_err-ok {F = CmdError K.Err} invalid_graph (unmarshal_json R j initial).0
            (ground (arith, h, e, f)),
      )
    ]
  ]

  pub Reads-read_graph :
      (files : Files) (path : String) (sg : ServiceGraph)
      → Reads R Y files path sg
      → read_graph R Y K disk files path ≡ ok sg
  unfolding read_graph unmarshal_yaml
  Reads-read_graph files path sg (text, j, e, f, r) =
      rw (e, read_graph) (rw (f, unmarshal_yaml) (ap (map_err invalid_graph) r))
