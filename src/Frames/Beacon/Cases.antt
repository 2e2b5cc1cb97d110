-- ===== src/Frames/Beacon/Cases.antt =====
-- The switch over the elements of a beacon (Module/sanity.c) by its cases.
use rt.Prelude.{ℕ, Bool, true, false, Option, some, if◌then◌else◌}
use rt.Frames.Element.{Element}
use rt.Frames.Beacon.{noted, on_element}
use rt.Frames.Beacon.Fields.{Station, Progress}
use rt.Frames.Beacon.Elements.{
  on_ssid, on_supp_rates, on_ds_parm, on_cf_parm, on_ibss_parm, on_tim, on_vendor,
  on_ext_supp_rates, on_rsn, on_new_channel, on_erp,
}

-- A case of the switch is taken, or the progress stays the same.
module _ (P : Option Progress → Type 0) (st : Station) (sub_type : ℕ) (e : Element)
    (p : Progress) where
  either : (b : Bool) {x y : Option Progress} → P x → P y → P (if b then x else y)
  either true h k = h
  either false h k = k

  pub on_element-cases :
      P (on_ssid e p)
      → P (on_supp_rates e p)
      → P (on_ds_parm st e p)
      → P (on_cf_parm e p)
      → P (on_ibss_parm e p)
      → P (noted p (on_tim st sub_type e p.report))
      → P (noted p (on_new_channel e p.report))
      → P (noted p (on_vendor e p.report))
      → P (noted p (on_ext_supp_rates e p.report))
      → P (noted p (on_erp e p.report))
      → P (noted p (on_rsn e p.report))
      → P (some p)
      → P (on_element st sub_type e p)
  unfolding on_element
  on_element-cases ssid rates ds cf ibss tim switch vendor ext erp rsn other = either _ ssid (
      either _ rates (
        either _ ds (
          either _ cf (
            either _ ibss (
              either _ tim (
                either _ switch
                  (either _ vendor (either _ ext (either _ erp (either _ rsn other))))))))))
