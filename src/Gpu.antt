-- ===== src/Gpu.antt =====
-- What a GPU can run: the tiers of crates/nm-gpu/src/types.rs and the map from GPUs to runtimes of
-- crates/nm-gpu/src/runtime_map.rs, with the memory of a Mac in crates/nm-common/src/types.rs.
pub mod Runtimes
use Prim.Native.String.{String, ◌++◌ as ◌+++◌}
use neuralmesh.Common.{
  ℕ, List, Bool, ◌%◌, false, ◌∷◌, [], ◌+◌, ◌||◌, ◌^◌, ◌++◌, if◌then◌else◌, ◌==◌, leb,
}

pub data GpuVendor : Type 0 where
  apple nvidia amd intel_arc unknown : GpuVendor

pub data GpuCapability : Type 0 where
  inference_small inference_mid inference_large training : GpuCapability

unfoldable pub from_vram_gb : ℕ → GpuCapability
from_vram_gb vram_gb =
    if leb vram_gb 15
    then inference_small
    else if leb vram_gb 31
    then inference_mid
    else if leb vram_gb 79
    then inference_large
    else training

-- The derived order of the tiers.
abbrev pub rank : GpuCapability → ℕ
rank inference_small = 0
rank inference_mid = 1
rank inference_large = 2
rank training = 3

-- The fields that the functions below read.
pub record GpuInfo : Type 0 where
  pub vendor : GpuVendor
  pub model : String
  pub vram_gb : ℕ
  pub capability : GpuCapability

pub data SupportedRuntime : Type 0 where
  mlx torch_mps onnx_coreml llama_cpp : SupportedRuntime
  torch_cuda onnx_cuda tensor_rt llama_cpp_cuda vllm_cuda : SupportedRuntime
  torch_rocm onnx_rocm llama_cpp_hip : SupportedRuntime
  torch_xpu onnx_open_vino llama_cpp_sycl open_vino_gen_ai : SupportedRuntime
  shell : SupportedRuntime

-- The place of a runtime in the enumeration, by which two are compared.
abbrev pub index : SupportedRuntime → ℕ
index mlx = 0
index torch_mps = 1
index onnx_coreml = 2
index llama_cpp = 3
index torch_cuda = 4
index onnx_cuda = 5
index tensor_rt = 6
index llama_cpp_cuda = 7
index vllm_cuda = 8
index torch_rocm = 9
index onnx_rocm = 10
index llama_cpp_hip = 11
index torch_xpu = 12
index onnx_open_vino = 13
index llama_cpp_sycl = 14
index open_vino_gen_ai = 15
index shell = 16

-- The tier is not read.
abbrev pub for_apple : GpuCapability → List SupportedRuntime
for_apple cap = llama_cpp ∷ onnx_coreml ∷ shell ∷ torch_mps ∷ mlx ∷ []

abbrev pub for_nvidia : GpuCapability → List SupportedRuntime
for_nvidia cap =
    (torch_cuda ∷ onnx_cuda ∷ llama_cpp_cuda ∷ shell ∷ [])
    ++ (if leb (rank inference_mid) (rank cap) then tensor_rt ∷ vllm_cuda ∷ [] else [])

abbrev pub for_amd : GpuCapability → List SupportedRuntime
for_amd cap = torch_rocm ∷ onnx_rocm ∷ llama_cpp_hip ∷ shell ∷ []

abbrev pub for_intel_arc : GpuCapability → List SupportedRuntime
for_intel_arc cap = torch_xpu ∷ onnx_open_vino ∷ open_vino_gen_ai ∷ llama_cpp_sycl ∷ shell ∷ []

abbrev pub for_vendor : GpuVendor → GpuCapability → List SupportedRuntime
for_vendor apple cap = for_apple cap
for_vendor nvidia cap = for_nvidia cap
for_vendor amd cap = for_amd cap
for_vendor intel_arc cap = for_intel_arc cap
for_vendor unknown cap = shell ∷ []

unfoldable pub for_gpu : GpuInfo → List SupportedRuntime
for_gpu gpu = for_vendor gpu.vendor gpu.capability

abbrev pub contains : List SupportedRuntime → SupportedRuntime → Bool
contains [] r = false
contains (x ∷ xs) r = (index x == index r) || contains xs r

unfoldable pub supports : GpuInfo → SupportedRuntime → Bool
unfolding for_gpu
supports gpu r = contains (for_gpu gpu) r

abbrev pub label_of : GpuVendor → String
label_of apple = "Apple Metal · "
label_of nvidia = "NVIDIA CUDA · "
label_of amd = "AMD ROCm · "
label_of intel_arc = "Intel Arc oneAPI · "
label_of unknown = "Unknown GPU · "

unfoldable pub vendor_label : GpuInfo → String
vendor_label gpu = label_of gpu.vendor +++ gpu.model

abbrev pub as_str : GpuVendor → String
as_str apple = "apple"
as_str nvidia = "nvidia"
as_str amd = "amd"
as_str intel_arc = "intel_arc"
as_str unknown = "unknown"

-- `MacChipInfo::capability_class` and `can_serve`, whose sum is of 32 bits
unfoldable pub capability_class : ℕ → String
capability_class unified_memory_gb =
    if leb unified_memory_gb 15
    then "metal-gpu-small"
    else if leb unified_memory_gb 31
    then "metal-gpu-mid"
    else if leb unified_memory_gb 63
    then "metal-gpu-high"
    else if leb unified_memory_gb 127
    then "metal-gpu-ultra"
    else "metal-gpu-pro"

unfoldable pub can_serve : ℕ → ℕ → Bool
can_serve unified_memory_gb ram_gb = leb ((ram_gb + 4) % 2 ^ 32) unified_memory_gb
