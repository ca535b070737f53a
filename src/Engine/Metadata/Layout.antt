-- ===== src/Engine/Metadata/Layout.antt =====
-- src/InferenceEngine.cpp: the six tables that `migrate_metadata_to_arena` asks of the arena.
use lumen_engine.Prelude.{ℕ, ◌+◌, ◌*◌, ◌≤◌, ◌<◌, ◌≡◌, refl, inl, inr, some, arith}
use lumen_engine.Memory.Arena.{LumenArena}
use lumen_engine.Memory.Arena.Typed.{
  lines, advanced, end_of, HasRoom, HasRoom-less, alloc_typed_fits,
}
use lumen_engine.Engine.Metadata.{Tables, alloc_tables}
use lumen_engine.Engine.Metadata.Stored.{InUse, in_blocks, in_names, in_dims, in_counts}
use lumen_engine.Engine.Metadata.OneNode.{Ordered, Apart}

abbrev pub tables_blocks : (n k : ℕ) → ℕ
tables_blocks n k = 3 * (lines (n * 8) + lines (k * 8))

-- The six arrays lie one behind the other.
pub record Interleaved (n k : ℕ) (tin tout : Tables) (hi : ℕ) : Type 0 where
  pub names : (tin.names + n * 8 ≤ tout.names) × (tout.names + k * 8 ≤ tin.dims)
  pub dims : (tin.dims + n * 8 ≤ tout.dims) × (tout.dims + k * 8 ≤ tin.counts)
  pub counts : (tin.counts + n * 8 ≤ tout.counts) × (tout.counts + k * 8 ≤ hi)

pub record Tabled (n k : ℕ) (a : LumenArena) (rest : ℕ) : Type 0 where
  pub tin : Tables
  pub tout : Tables
  pub new_offset : ℕ
  pub ran : alloc_tables n k a ≡ some (tin, tout, record a { offset = new_offset })
  pub room : HasRoom (record a { offset = new_offset }) rest
  pub order : Interleaved n k tin tout (a.arena_ptr + new_offset)

pub alloc_tables_lem :
    (n k : ℕ) (a : LumenArena) (rest : ℕ) → HasRoom a (tables_blocks n k + rest) → Tabled n k a rest
unfolding alloc_tables
alloc_tables_lem n k a rest h =
    let ln = lines (n * 8) in
    let lk = lines (k * 8) in
    let (e₁, h₁) =
      alloc_typed_fits a 8 8 n (lk + (ln + (lk + (ln + (lk + rest)))))
        (HasRoom-less (omega arith) h) (omega arith) in
    let a₁ = advanced a ln in
    let (e₂, h₂) = alloc_typed_fits a₁ 8 8 k (ln + (lk + (ln + (lk + rest)))) h₁ (omega arith) in
    let a₂ = advanced a₁ lk in
    let (e₃, h₃) = alloc_typed_fits a₂ 8 8 n (lk + (ln + (lk + rest))) h₂ (omega arith) in
    let a₃ = advanced a₂ ln in
    let (e₄, h₄) = alloc_typed_fits a₃ 8 8 k (ln + (lk + rest)) h₃ (omega arith) in
    let a₄ = advanced a₃ lk in
    let (e₅, h₅) = alloc_typed_fits a₄ 8 8 n (lk + rest) h₄ (omega arith) in
    let a₅ = advanced a₄ ln in
    let (e₆, h₆) = alloc_typed_fits a₅ 8 8 k rest h₅ (omega arith) in
    record {
      tin = record { names = end_of a; dims = end_of a₂; counts = end_of a₄ };
      tout = record { names = end_of a₁; dims = end_of a₃; counts = end_of a₅ };
      new_offset = a₅.offset + lk;
      ran = rw e₁ (rw e₂ (rw e₃ (rw e₄ (rw e₅ (rw e₆ refl)))));
      room = h₆;
      order = record {
        names = (omega arith, omega arith);
        dims = (omega arith, omega arith);
        counts = (omega arith, omega arith);
      };
    }

module _ {n k : ℕ} {tin tout : Tables} where
  pub inputs-Ordered : {lo : ℕ} → Interleaved n k tin tout lo → Ordered tin n lo
  inputs-Ordered o = record {
    names_end = omega (arith, o.names);
    dims_end = omega (arith, o.dims);
    counts_end = omega (arith, o.counts);
  }

  pub outputs-Ordered : {lo hi : ℕ} → lo ≤ hi → Interleaved n k tin tout lo → Ordered tout k hi
  outputs-Ordered h o = record {
    names_end = omega (arith, o.names, o.dims);
    dims_end = omega (arith, o.dims, o.counts);
    counts_end = omega (arith, o.counts);
  }

  -- What the inputs take up is apart from what the outputs' copy writes.
  pub Apart-inputs :
      {lo hi q : ℕ}
      → Interleaved n k tin tout lo
      → lo ≤ hi
      → InUse tin 0 n lo hi q
      → Apart tout 0 k hi q
  Apart-inputs o b (in_blocks l h) = record {
    below = h;
    off_names = inr (omega (arith, o.names, o.dims, o.counts));
    off_dims = inr (omega (arith, o.dims, o.counts));
    off_counts = inr (omega (arith, o.counts));
  }
  Apart-inputs o b (in_names l h) = record {
    below = omega (arith, o.names, o.dims, o.counts);
    off_names = inl (omega (arith, o.names));
    off_dims = inl (omega (arith, o.names, o.dims));
    off_counts = inl (omega (arith, o.names, o.dims, o.counts));
  }
  Apart-inputs o b (in_dims l h) = record {
    below = omega (arith, o.dims, o.counts);
    off_names = inr (omega (arith, o.names));
    off_dims = inl (omega (arith, o.dims));
    off_counts = inl (omega (arith, o.dims, o.counts));
  }
  Apart-inputs o b (in_counts l h) = record {
    below = omega (arith, o.counts);
    off_names = inr (omega (arith, o.names, o.dims));
    off_dims = inr (omega (arith, o.dims));
    off_counts = inl (omega (arith, o.counts));
  }

  pub below-inputs :
      {lo hi q : ℕ} → Interleaved n k tin tout lo → lo ≤ hi → InUse tin 0 n lo hi q → q < hi
  below-inputs o b u = (Apart-inputs o b u).below

pub below-outputs :
    {n k lo hi q : ℕ} {tin tout : Tables}
    → Interleaved n k tin tout lo
    → lo ≤ hi
    → {at : ℕ} → InUse tout 0 k at hi q
    → q < hi
below-outputs o b (in_blocks l h) = h
below-outputs o b (in_names l h) = omega (arith, o.names, o.dims, o.counts)
below-outputs o b (in_dims l h) = omega (arith, o.dims, o.counts)
below-outputs o b (in_counts l h) = omega (arith, o.counts)
