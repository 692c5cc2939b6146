-- ===== src/Driver/Dispatch/Keeping.antt =====
-- The soundness of the driver over the handlers of the requests about devices.
use usb_over_ip.Common.{
  ℕ, ◌+◌, ◌≡◌, refl, List, Option, none, some, arith, Option-cases, inl, inr, ltb, ◌>>=◌, length,
  Bool-cases,
}
use usb_over_ip.Common.Codec.{uint}
use usb_over_ip.Ioctl.{plugin_request_size}
use usb_over_ip.Ioctl.Layout.{decode_plugin_request}
use usb_over_ip.Driver.{NtStatus, DeviceContext}
use usb_over_ip.Driver.Table.Invariant.{
  IsSound, create_virtual_device-IsSound, destroy_virtual_device-IsSound,
}
use usb_over_ip.Driver.Queue.Completing.{update_device-IsSound}
use usb_over_ip.Driver.Request.{Framework, Retrieved, Reply}
use usb_over_ip.Driver.DeviceHandlers.{
  handle_get_version, respond_plugin, plugin_with, handle_plugin_device, handle_unplug_device,
  handle_get_device_list, handle_get_statistics, handle_reset_device, reset, reset_device,
}

-- A handler that does not fault leaves a sound context.
abbrev pub Keeps : Option Reply → Type 0
Keeps none = Unit {0}
Keeps (some r) = IsSound r.context

pub Keeps->>= :
    {A : Type 0} (m : Option A) (k : A → Option Reply)
    → ((a : A) → m ≡ some a → Keeps (k a))
    → Keeps (m >>= k)
Keeps->>= none k h = tt
Keeps->>= (some a) k h = h a refl

module _ (f : Framework) (ctx : DeviceContext) (v : IsSound ctx) where
  pub get_version-Keeps : (r n : ℕ) → Keeps (handle_get_version f ctx r n)
  unfolding handle_get_version
  get_version-Keeps r n = ground arith

  pub device_list-Keeps : (r n : ℕ) → Keeps (handle_get_device_list f ctx r n)
  unfolding handle_get_device_list
  device_list-Keeps r n = ground arith

  pub statistics-Keeps : (r n : ℕ) → Keeps (handle_get_statistics f ctx r n)
  unfolding handle_get_statistics
  statistics-Keeps r n = ground arith

pub respond_plugin-Keeps :
    (f : Framework) (c : NtStatus × ℕ × DeviceContext) (r : ℕ)
    → IsSound c.2
    → Keeps (respond_plugin f c r)
unfolding respond_plugin
respond_plugin-Keeps f (s, id, ctx) r v = ground (arith, destroy_virtual_device-IsSound ctx id v)

pub plugin_with-Keeps :
    (f : Framework) (ctx : DeviceContext) (r : ℕ) (b : List ℕ)
    → IsSound ctx
    → Keeps (plugin_with f ctx r b)
unfolding plugin_with
plugin_with-Keeps f ctx r b v = Keeps->>= (decode_plugin_request b) _ λ p e.
    elim (Bool-cases (ltb (length b) (plugin_request_size + p.0.descriptor_length))) [
      | inl h ↦ rw h v
      | inr h ↦ rw h (
          Keeps->>= _ (λ c. respond_plugin f c r)
            λ c q. respond_plugin-Keeps f c r (create_virtual_device-IsSound _ _ ctx _ _ _ v q))
    ]

module _ (f : Framework) (ctx : DeviceContext) (v : IsSound ctx) where
  pub plugin_device-Keeps : (r m n : ℕ) → Keeps (handle_plugin_device f ctx r m n)
  unfolding handle_plugin_device
  plugin_device-Keeps r m n = go (f.retrieve_input r plugin_request_size) refl
    where
      go :
          (b : Retrieved)
          → f.retrieve_input r plugin_request_size ≡ b
          → Keeps (handle_plugin_device f ctx r m n)
      go (Retrieved.refused s) e = ground arith
      go (Retrieved.retrieved b) e = ground (arith, plugin_with-Keeps f ctx r b v)

  pub unplug_device-Keeps : (r n : ℕ) → Keeps (handle_unplug_device f ctx r n)
  unfolding handle_unplug_device
  unplug_device-Keeps r n = go (f.retrieve_input r 4) refl
    where
      go : (b : Retrieved) → f.retrieve_input r 4 ≡ b → Keeps (handle_unplug_device f ctx r n)
      go (Retrieved.refused s) e = ground arith
      go (Retrieved.retrieved b) e = elim (Option-cases (uint 4 b)) [
        | inl q ↦ ground arith
        | inr (p, q) ↦ ground (arith, destroy_virtual_device-IsSound ctx p.0 v)
      ]

  pub reset_device-IsSound : (id : ℕ) → IsSound (reset_device ctx id).context
  unfolding reset_device
  reset_device-IsSound id =
      ground (arith, update_device-IsSound ctx id reset (λ d. refl) (λ d. refl) v)

  pub reset_device-Keeps : (r n : ℕ) → Keeps (handle_reset_device f ctx r n)
  unfolding handle_reset_device
  reset_device-Keeps r n = go (f.retrieve_input r 4) refl
    where
      go : (b : Retrieved) → f.retrieve_input r 4 ≡ b → Keeps (handle_reset_device f ctx r n)
      go (Retrieved.refused s) e = ground arith
      go (Retrieved.retrieved b) e = elim (Option-cases (uint 4 b)) [
        | inl q ↦ ground arith
        | inr (p, q) ↦ ground (arith, reset_device-IsSound p.0)
      ]
