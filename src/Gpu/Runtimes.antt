-- ===== src/Gpu/Runtimes.antt =====
-- Which GPUs support a runtime.
use neuralmesh.Common.{
  ℕ, Bool, arith, ◌||◌, List, true, refl, ◌++◌, ◌≡◌, ◌∷◌, ◌≤◌, [], ◌==◌, false, sym, subst,
  if◌then◌else◌, leb→le, leb,
}
use neuralmesh.Gpu.{
  rank, index, GpuInfo, from_vram_gb, for_gpu, contains, supports, SupportedRuntime, llama_cpp_cuda,
  vllm_cuda, for_vendor, amd, shell, GpuCapability, GpuVendor, nvidia, torch_cuda, unknown,
  onnx_cuda, tensor_rt, intel_arc, apple,
}

or_grow : (a b c : Bool) → (b ≡ true → c ≡ true) → (a || b) ≡ true → (a || c) ≡ true
or_grow true b c f h = refl
or_grow false b c f h = f h

-- A list that goes on with more supports more.
contains-append :
    (base more less : List SupportedRuntime) (r : SupportedRuntime)
    → (contains less r ≡ true → contains more r ≡ true)
    → contains (base ++ less) r ≡ true
    → contains (base ++ more) r ≡ true
contains-append [] more less r f h = f h
contains-append (x ∷ base) more less r f h =
    or_grow (index x == index r) (contains (base ++ less) r) (contains (base ++ more) r)
      (contains-append base more less r f) h

-- The tiers follow the memory.
pub rank-from_vram_gb : (m n : ℕ) → m ≤ n → rank (from_vram_gb m) ≤ rank (from_vram_gb n)
unfolding from_vram_gb
rank-from_vram_gb m n h = ground arith

-- The two runtimes of the higher tiers.
extra_mono :
    (b c : Bool) (r : SupportedRuntime)
    → (b ≡ true → c ≡ true)
    → contains (if b then tensor_rt ∷ vllm_cuda ∷ [] else []) r ≡ true
    → contains (if c then tensor_rt ∷ vllm_cuda ∷ [] else []) r ≡ true
extra_mono true true r f h = h
extra_mono true false r f h = ground (arith, f refl)
extra_mono false c r f h = ground (arith, h)

le→leb : (a b : ℕ) → a ≤ b → leb a b ≡ true
le→leb a b h = ground arith

for_vendor_mono :
    (v : GpuVendor) (c d : GpuCapability) (r : SupportedRuntime)
    → rank c ≤ rank d
    → contains (for_vendor v c) r ≡ true
    → contains (for_vendor v d) r ≡ true
for_vendor_mono apple c d r h s = s
for_vendor_mono amd c d r h s = s
for_vendor_mono intel_arc c d r h s = s
for_vendor_mono unknown c d r h s = s
for_vendor_mono nvidia c d r h s =
    let higher : leb 1 (rank c) ≡ true → leb 1 (rank d) ≡ true =
      λ e. le→leb 1 (rank d) (omega (arith, h, leb→le 1 (rank c) e)) in
    contains-append (torch_cuda ∷ onnx_cuda ∷ llama_cpp_cuda ∷ shell ∷ []) _ _ r
      (extra_mono (leb 1 (rank c)) (leb 1 (rank d)) r higher) s

-- A GPU with more memory, of the same maker and with the tier of that memory, supports every runtime that
-- the one with less memory does.
pub supports_mono :
    (small big : GpuInfo) (r : SupportedRuntime)
    → small.vendor ≡ big.vendor
    → small.capability ≡ from_vram_gb small.vram_gb
    → big.capability ≡ from_vram_gb big.vram_gb
    → small.vram_gb ≤ big.vram_gb
    → supports small r ≡ true
    → supports big r ≡ true
unfolding supports for_gpu
supports_mono small big r v c d h s =
    let tiers : rank small.capability ≤ rank big.capability =
      subst (λ x. rank x ≤ rank big.capability) (sym c)
        (subst (λ x. rank (from_vram_gb small.vram_gb) ≤ rank x) (sym d)
          (rank-from_vram_gb small.vram_gb big.vram_gb h)) in
    subst (λ x. contains (for_vendor x big.capability) r ≡ true) v
      (for_vendor_mono small.vendor small.capability big.capability r tiers s)
