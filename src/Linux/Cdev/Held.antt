-- ===== src/Linux/Cdev/Held.antt =====
-- What is registered with the kernel behind cr_host_cdev_init() and cr_host_lkm_exit().
use clearram.Base.{ℕ, refl, some, inl, inr, true, false, ◌<◌, ◌≡◌, Bool, ◌⊎◌, ◌==◌, arith}
use clearram.Linux.Cdev.{Value, value, error, is_error, Cdev, Returned, cdev_init, lkm_exit}

-- The state of a module that has just been loaded.
abbrev pub unset : Cdev
unset = record {
  host_cdev_major = value 0;
  host_cdev_class = value 0;
  host_cdev_device = value 0;
  chrdev_held = false;
  class_held = false;
  device_held = false;
}

-- The variables behind a successful call, when all has been released.
abbrev pub released : (major class device : ℕ) → Cdev
released major class device = record unset {
  host_cdev_major = value major;
  host_cdev_class = value class;
  host_cdev_device = value device;
}

-- Everything is registered, or nothing.
unfoldable pub IsHeld : Bool → Cdev → Type 0
IsHeld b s = (s.chrdev_held ≡ b) × (s.class_held ≡ b) × (s.device_held ≡ b)

-- The error of the first of the three calls that failed, else 0.
unfoldable pub first_error : (major class device : Value) → Value
first_error (error e) class device = error e
first_error (value m) (error e) device = error e
first_error (value m) (value c) (error e) = error e
first_error (value m) (value c) (value d) = value 0

-- For all results of the kernel's three functions, cr_host_cdev_init() releases only what is
-- registered, and returns the error of the first call that failed, else 0: it returns 0 with the
-- device number, the class and the device registered, or an error with nothing registered.
pub cdev_init-IsHeld :
    (major class device : Value)
    → (r : Returned) × (cdev_init major class device unset ≡ some r)
      × (r.ret ≡ first_error major class device)
      × (((r.ret ≡ value 0) × IsHeld true r.state)
          ⊎ ((is_error r.ret ≡ true) × IsHeld false r.state))
unfolding cdev_init IsHeld first_error
cdev_init-IsHeld (error e) class device = (_, refl, refl, inr (refl, (refl, refl, refl)))
cdev_init-IsHeld (value m) (error e) device = (_, refl, refl, inr (refl, (refl, refl, refl)))
cdev_init-IsHeld (value m) (value c) (error e) = (_, refl, refl, inr (refl, (refl, refl, refl)))
cdev_init-IsHeld (value m) (value c) (value d) = (_, refl, refl, inl (refl, (refl, refl, refl)))

-- Behind a call of cr_host_cdev_init() for which the kernel gave a device number and two pointers
-- that are not zero, cr_host_lkm_exit() releases the device, its class and the device number, each
-- of them while it is registered and the class behind its device.
pub lkm_exit-IsHeld :
    (major class device : ℕ)
    → 0 < major
    → 0 < class
    → 0 < device
    → (r : Returned) × (cdev_init (value major) (value class) (value device) unset ≡ some r)
      × ((s : Cdev) × (lkm_exit r.state ≡ some s) × IsHeld false s)
unfolding cdev_init lkm_exit IsHeld
lkm_exit-IsHeld major class device h k l =
    let set : (n : ℕ) → 0 < n → (n == 0) ≡ false = λ n p. ground arith in
    (
      _,
      refl,
      (
        released major class device,
        rw (set device l, set class k, set major h) refl,
        (refl, refl, refl),
      ),
    )
